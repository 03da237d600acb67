-- ===== src/Lib.antt =====
-- cola: a text CRDT for collaborative editing. Each peer has a `Replica` of the text, which stores no
-- text: it turns local edits into `Insertion`s and `Deletion`s that are sent to the other peers, and
-- turns the edits that it receives into offsets and ranges that are applied to the local buffer.
--
-- The parts of the program and where they are modelled.
-- * `Text` (src/text.rs) and `Range` (src/utils.rs): Text, with the encoding in Text/Codec.
-- * `Anchor`, `InnerAnchor`, `AnchorBias` (src/anchor.rs): Anchor and Anchor/Codec.
-- * `BaseMap`, the version and deletion maps (src/version_map.rs): VersionMap, with its laws, the
--   comparison in VersionMap/Order and the encoding in VersionMap/Codec. ReplicaIdMap is the hash map
--   that it and the backlog use.
-- * `Encode` and `Decode` for integers and booleans (src/encode.rs, src/leb128.rs): Codec and Leb128.
-- * `Insertion` (src/insertion.rs) and `Deletion` (src/deletion.rs): Insertion and Deletion, with their
--   encodings in Insertion/Codec, Deletion/Anchors and Deletion/Codec.
-- * `Backlog` (src/backlog.rs), the edits that came before they could be merged: Backlog, with the
--   search and insertion into its sorted queues in Backlog/Queues and its encoding in Backlog/Codec.
-- * `EditRun` (src/run_tree.rs), the leaves of the run tree: EditRun, with its order, and the
--   characters that splits, deletions and joins leave in EditRun/Deletes and EditRun/Joins.
-- * `LamportClock` and `RunClock` (src/replica.rs): the modules of these names.
-- * `Replica` (src/replica.rs): Replica, one definition for each method of that name. Its iterators
--   over the backlog (src/backlog.rs) are in Replica/Backlogged, and the sequences of calls that make
--   up the life of a replica in Replica/Steps.
-- * `RunTree` (src/run_tree.rs): RunTree is the record of the operations that a replica calls. The
--   operations themselves, on a tree of runs and the indices of their fragments, are in RunTree/Runs
--   (local insertions), RunTree/Cuts (local deletions), RunTree/Places and RunTree/Merge (remote
--   insertions), RunTree/Targets and RunTree/Spans (remote deletions) and RunTree/Anchors.
--   RunTree/Codec has the encoding, and RunTree/Filled makes of all of these the RunTree and the
--   TreeCodec of a replica. RunTree/Coherent says which trees have fragments, lengths and leaves that
--   agree; RunTree/Fresh is about new trees, RunTree/Attached and RunTree/Resolves about anchors,
--   RunTree/Order and RunTree/Behind about the place of a merged insertion, RunTree/Codec/Reads,
--   RoundTrip, Writes, Named and Leaves about the encoding.
-- * `Fragment` and `Array` (src/run_indices.rs), which leaf holds which part of a run: Fragments, with
--   the search in Fragments/Search, the lookup at an offset in Fragments/Lookup and the split in
--   Fragments/Split. The tree that replaces a full array is in Fragments/Tree, with what it has in
--   common with the array in Fragments/Grown. RunIndices has the fragments of the runs of each replica.
-- * `Gtree` (src/gtree.rs), the balanced tree of the runs and of their fragments: Gtree holds its data,
--   Gtree/Node the methods of one inode, Gtree/Find the searches by offset, Gtree/Walk the steps from
--   leaf to leaf, Gtree/Grow the additions of children with the splits that they cause, Gtree/Edit the
--   changes next to a known leaf, Gtree/Insert the insertion at an offset, Gtree/Locate and
--   Gtree/Delete the deletion of a range, Gtree/Iter the iterator over the leaves, and Gtree/Codec the
--   encoding of inodes. The children of Gtree/Iter are about the iterator. Gtree/Shape says which list
--   of leaves a tree stands for; Gtree/Lookup and Gtree/Offsets are about the searches, Gtree/Arena,
--   Gtree/Splices, Gtree/Halves, Gtree/Room, Gtree/Pairs and Gtree/Ordered about the additions of
--   children.
-- * `EncodedReplica` (src/encoded_replica.rs) with `Replica::encode` and `decode`: EncodedReplica, over
--   the encoding of a replica in Replica/Codec, where TreeCodec is the encoding of the run tree, which
--   RunTree/Filled gives.
-- Slices has indexing into vectors, and the commands that the methods of a tree are made of. Prelude
-- holds the names that the files share, and Examples the theorems on concrete inputs.
--
-- How the code is modelled.
-- * A method on `&mut self` returns its result and the changed value; on a panic it returns the `Panic`
--   in place of both. A method on `&self` is a function.
-- * Integers are natural numbers, and `+` and `-` wrap at 2 ^ 64 as in a release build on a 64-bit
--   machine; `saturating_sub` stops at 0. Where a theorem needs that nothing wraps, it says so.
-- * A hash map is an association list in the order of its iteration, which is arbitrary.
-- * `get_mut` and `iter_mut` of the maps are updates by a function.
-- * The value of an encoder is what it appends to the buffer; a decoder returns the value and the rest
--   of the buffer, or the error. The byte format of integers is the crate `varint_simd`'s, which is a
--   parameter: that an encoded integer is read back is the crate's documented behaviour, stated as
--   IsVarint. Examples/Bytes has a LEB128 format of which it holds.
-- * `binary_search_by` on a deque is the search for the first item that is not smaller, which is its
--   documented result on the sorted queues that the backlog keeps.
-- * The iterators over the backlog borrow its queues: they hold the queues that they have gone past and
--   those to come, and give them back when they are dropped.
-- * Every loop over a list, a count or a queue is a recursion on it. A loop or a recursion along a path
--   of a tree, from the root down or up to it, is given as many rounds as the tree has inodes and one
--   more, and panics with `out_of_rounds` when it is not over then: a path has no more inodes on it
--   than there are. A loop over an iterator is given as many as the tree has leaves and one more, since
--   it goes past each leaf once. That the iterator and the searches by offset need no more is part of
--   what is shown of them.
-- * The closures that change a leaf of a tree return the changed leaf and what they return in the code,
--   with the variables that they capture.
-- * A decoder that can panic returns a `Stop`, the error or the panic, where the decoded replica is made
--   of the parts: a panic of the decoder is a panic of `decode`, and no error.
-- * A digest is the crate `sha2`'s, a parameter: that it has 32 bytes is stated as IsSha256.
--
-- The theorems on replicas take the operations of the run tree and their encoding as parameters, so
-- that they hold for every implementation of these; RunTree/Filled is the one of the code. Nothing is
-- shown of what a whole local edit or a whole merge does to the leaves of the run tree.
--
-- Not modelled: equality of trees; the hasher of src/replica_id.rs; serde and Debug implementations;
-- the invariant assertions that only tests call; benches, tests, traces and examples.
pub mod Prelude
pub mod Text
pub mod EditRun
pub mod ReplicaIdMap
pub mod VersionMap
pub mod Anchor
pub mod LamportClock
pub mod RunClock
pub mod Leb128
pub mod Codec
pub mod Insertion
pub mod Deletion
pub mod Panics
pub mod Slices
pub mod Gtree
pub mod EncodedReplica
pub mod RunIndices
pub mod RunTree
pub mod Backlog
pub mod Replica
pub mod Fragments
pub mod Examples
