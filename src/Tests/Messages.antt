-- ===== src/Tests/Messages.antt =====
-- The theorems on messages at concrete buffers.
use edbc.Base.{ℕ, ◌<◌, ◌≡◌, refl, true, none, some, [], ◌∷◌, arith}
use edbc.Base.Outcome.{returns, Rc}
use edbc.Base.Outcome.Rc.{edb_ok}
use edbc.Base.Memory.{HoldsAt}
use edbc.Msg.Buffer.{Buffer, check_buffer, receive}
use edbc.Msg.Build.{build_reply_msg, build_insert_msg, build_query_msg}
use edbc.Msg.Extract.{parse_at, extract_reply_msg, extract_insert_msg, extract_query_msg}
use edbc.Msg.Check.{IsChecked, check_buffer-IsChecked}
use edbc.Msg.RoundTrip.{IsReady, query-round_trip}
use edbc.Msg.Records.{insert-round_trip, reply-round_trip}
use edbc.Tests.Fixtures.{numbers, zeros, plain, modest}

ready : (total : ℕ) → total < 1000 → IsReady modest plain 64 total
ready total h = record {
  heap = refl;
  sized = refl;
  small = omega arith;
  total_small = omega arith;
  granted = ground arith;
}

query-round_trip_example :
    (c : Buffer) × (build_query_msg numbers modest plain 64 90 ≡ returns (edb_ok, c, c.capacity))
    × (extract_query_msg numbers (receive c 99 zeros 4096) 0 ≡ returns (edb_ok, 90))
query-round_trip_example =
    query-round_trip numbers modest plain 64 90 (ready 99 (omega arith)) zeros 4096 0 (omega arith)

insert-round_trip_example :
    (c : Buffer) × (build_insert_msg numbers modest plain 64 90 ≡ returns (edb_ok, c, c.capacity))
    × (extract_insert_msg (receive c 103 zeros 4096) 0 true none ≡ returns (edb_ok, 1, some 12))
    × (parse_at numbers (receive c 103 zeros 4096) 12 ≡ returns 90)
insert-round_trip_example =
    insert-round_trip numbers modest plain 64 90 zeros 4096 0 none (ready 103 (omega arith))
      (omega arith)

reply-round_trip_example :
    (c : Buffer) × (build_reply_msg numbers modest plain 64 4294967275 (some 2)
      ≡ returns (edb_ok, c, c.capacity))
    × (extract_reply_msg (receive c 19 zeros 4096) 0 0 true none ≡ (edb_ok, 4294967275, 1, some 16))
    × HoldsAt ((receive c 19 zeros 4096).bytes) 16 (34 ∷ 49 ∷ 49 ∷ [])
reply-round_trip_example =
    reply-round_trip numbers modest plain 64 4294967275 (some 2) zeros 4096 0 0 none (omega arith)
      (ready 19 (omega arith)) (omega arith)

check_buffer-IsChecked_example :
    (r : Rc × Buffer × ℕ) × (check_buffer modest plain 64 2000 ≡ returns r)
    × IsChecked modest plain 64 2000 r
check_buffer-IsChecked_example =
    check_buffer-IsChecked modest plain 64 2000 refl (omega arith) (omega arith) refl
