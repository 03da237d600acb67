-- ===== src/Examples.antt =====
-- The theorems on concrete inputs, with a concrete integer format and a concrete run tree.
mod Anchors
mod Bytes
mod Counter
mod Formats
mod Runs
mod Maps
mod Edits
mod Arrays
mod Trees
mod Encoded
mod Queues
