-- ===== src/Tests/Sockets.antt =====
-- The theorems on ossSocket at concrete sockets.
use edbc.Base.{ℕ, ◌<◌, ◌≡◌, refl, true, false, List, [], ◌∷◌, ◌++◌, take, drop, arith}
use edbc.Base.Outcome.{returns}
use edbc.Base.Outcome.Rc.{edb_ok, os_error}
use edbc.Oss.Socket.{
  ready, failed, Arrival, arrives, fails, Acceptance, takes, refuses, Socket, recv, send,
}
use edbc.Oss.Recv.{stream, Flows, recv-gathers}
use edbc.Oss.Send.{send-delivers, send-refused}

-- Two interruptions, and five bytes in two pieces; the peer takes two bytes, and refuses the third.
abbrev busy : Socket
busy = record {
  init = true;
  timeout = 0;
  alive = true;
  polls = failed 4 ∷ ready ∷ [];
  arrivals = arrives (1 ∷ 2 ∷ []) ∷ fails 4 ∷ arrives (3 ∷ 4 ∷ 5 ∷ []) ∷ [];
  acceptances = takes 1 ∷ takes 1 ∷ refuses 32 ∷ [];
  sent = 9 ∷ [];
}

recv-gathers_example :
    (qs : List Arrival) × (recv busy 4 false
      ≡ returns
          ((edb_ok, take 4 (stream busy.arrivals)), record busy { polls = []; arrivals = qs }))
    × (stream qs ≡ drop 4 (stream busy.arrivals))
    × Flows 0 qs
recv-gathers_example =
    recv-gathers busy 4 [] (omega arith) refl (omega arith, (refl, omega arith, (omega arith, tt)))
      (omega arith)

send-delivers_example :
    (qs : List Acceptance) × (send busy (7 ∷ 8 ∷ [])
      ≡ returns
          (edb_ok, record busy { polls = []; acceptances = qs; sent = (9 ∷ []) ++ (7 ∷ 8 ∷ []) }))
send-delivers_example = send-delivers busy (7 ∷ 8 ∷ []) [] (omega arith) refl (omega arith)

send-refused_example :
    (k : ℕ) × (qs : List Acceptance) × (k < 3)
    × (send busy (7 ∷ 8 ∷ 9 ∷ [])
        ≡ returns (
          os_error 1,
          record busy { polls = []; acceptances = qs; sent = (9 ∷ []) ++ take k (7 ∷ 8 ∷ 9 ∷ []) },
        ))
send-refused_example = send-refused busy (7 ∷ 8 ∷ 9 ∷ []) [] refl (omega arith)
