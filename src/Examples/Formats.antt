-- ===== src/Examples/Formats.antt =====
-- The byte formats, on LEB128 integers.
use cola.Prelude.{◌≡◌, refl, [], ◌∷◌, ◌++◌, ok, arith}
use cola.Text
use cola.Text.{Text}
use cola.Anchor
use cola.Anchor.{Anchor, InnerAnchor, right}
use cola.VersionMap
use cola.VersionMap.{BaseMap}
use cola.VersionMap.Codec.{Fits}
use cola.Insertion
use cola.Insertion.{Insertion}
use cola.Insertion.Codec.{
  encode_insertion, decode_insertion, ContinuesAtStart, decode_insertion-encode_insertion, run_of,
}
use cola.Deletion.Codec.{encode_deletion, decode_deletion, decode_deletion-encode_deletion}
use cola.Backlog.{Backlog}
use cola.Backlog.Codec.{encode_backlog, decode_backlog}
use cola.Backlog.Codec.RoundTrip.{decode_backlog-encode_backlog, QueuedInsertion}
use cola.Examples.Bytes.{leb128, leb128-IsVarint}
use cola.Examples.Counter.{by_second, second_deletion}

text-IsValid : Text.IsValid (by_second 3 5).text
text-IsValid = record { id_fits = omega arith; ordered = omega arith; end_fits = omega arith }

anchor-IsValid : Anchor.IsValid (by_second 3 5).anchor
anchor-IsValid = record {
  id_fits = omega arith;
  run_ts_fits = omega arith;
  offset_fits = omega arith;
}

insertion-IsValid : Insertion.IsValid (by_second 3 5)
insertion-IsValid = record {
  anchor = anchor-IsValid;
  text = text-IsValid;
  run_ts_fits = omega arith;
  lamport_ts_fits = omega arith;
}

begins : ContinuesAtStart (by_second 3 5)
unfolding run_of
begins h = ground arith

decode_insertion-encode_insertion_example :
    decode_insertion ⦃v = leb128⦄ (encode_insertion ⦃v = leb128⦄ (by_second 3 5) ++ 7 ∷ [])
    ≡ ok (by_second 3 5, 7 ∷ [])
decode_insertion-encode_insertion_example =
    decode_insertion-encode_insertion ⦃v = leb128⦄ leb128-IsVarint (by_second 3 5) (7 ∷ [])
      insertion-IsValid begins

start-IsValid : Anchor.IsValid second_deletion.start
start-IsValid = record {
  id_fits = omega arith;
  run_ts_fits = omega arith;
  offset_fits = omega arith;
}

end-IsValid : Anchor.IsValid second_deletion.end
end-IsValid = record { id_fits = omega arith; run_ts_fits = omega arith; offset_fits = omega arith }

map-IsValid : VersionMap.IsValid second_deletion.version_map
map-IsValid = ((omega arith, tt), (tt, tt))

map-Fits : Fits second_deletion.version_map
map-Fits = record {
  id_fits = omega arith;
  value_fits = omega arith;
  count_fits = omega arith;
  entries_fit = ((omega arith, omega arith), tt);
}

decode_deletion-encode_deletion_example :
    decode_deletion ⦃v = leb128⦄ (encode_deletion ⦃v = leb128⦄ second_deletion ++ 7 ∷ [])
    ≡ ok (second_deletion, 7 ∷ [])
decode_deletion-encode_deletion_example =
    decode_deletion-encode_deletion ⦃v = leb128⦄ leb128-IsVarint second_deletion (7 ∷ []) (record {
      start = start-IsValid;
      end = end-IsValid;
      ordered = λ e. omega arith;
      map = map-IsValid;
      map_fits = map-Fits;
      ts_fits = omega arith;
    })

abbrev queues : Backlog
queues = record {
  insertions = (2, by_second 3 5 ∷ by_second 3 5 ∷ []) ∷ (4, []) ∷ [];
  deletions = (2, second_deletion ∷ []) ∷ [];
}

queued : QueuedInsertion 2 (by_second 3 5)
queued = record { by = refl; insertion = insertion-IsValid }

decode_backlog-encode_backlog_example :
    decode_backlog ⦃v = leb128⦄ (encode_backlog ⦃v = leb128⦄ queues ++ 7 ∷ []) ≡ ok (queues, 7 ∷ [])
decode_backlog-encode_backlog_example =
    decode_backlog-encode_backlog ⦃v = leb128⦄ leb128-IsVarint queues (7 ∷ []) (record {
      insertion_ids = ((omega arith, tt), (tt, tt));
      insertions_fit = omega arith;
      insertions = (
        (omega arith, omega arith, (queued, (queued, tt))),
        ((omega arith, omega arith, tt), tt),
      );
      deletion_ids = (tt, tt);
      deletions_fit = omega arith;
      deletions = (
        (
          omega arith,
          omega arith,
          (
            record {
              start = start-IsValid;
              end = end-IsValid;
              map = map-IsValid;
              map_fits = map-Fits;
              ts_fits = omega arith;
            },
            tt,
          ),
        ),
        tt,
      );
    })
