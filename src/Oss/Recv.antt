-- ===== src/Oss/Recv.antt =====
-- ossSocket::recv (oss/ossSocket.cpp): the bytes come in pieces, and are put together.
use edbc.Base.{
  ℕ, suc, zero, ◌+◌, ◌-◌, ◌≤◌, ◌<◌, ◌≡◌, refl, sym, ap, ◌∙◌, inl, inr, true, false, Option, none,
  some, List, [], ◌∷◌, ◌++◌, append-nil, append_assoc, length, length-append, take, drop,
  length-drop, take-append_inside, drop-append_inside, take-append_behind, drop-append_behind, ltb,
  ◌==◌, ◌&&◌, if◌then◌else◌, Bool-cases, arith,
}
use edbc.Base.Outcome.{returns, Rc}
use edbc.Base.Outcome.Rc.{os_error, edb_ok, edb_timeout}
use edbc.Base.Bytes.{Bytes}
use edbc.Oss.Socket.{
  Poll, ready, elapsed, failed, Arrival, arrives, fails, Socket, eintr, eagain, max_recv_retries,
  answered, wait_ready, recv_loop, recv,
}

-- The answers of select up to the first that says ready, where only interruptions come before.
abbrev pub settle : List Poll → Option (List Poll)
settle [] = none
settle (ready ∷ ps) = some ps
settle (elapsed ∷ ps) = none
settle (failed e ∷ ps) = if e == eintr then settle ps else none

-- All the bytes that come in, in their order.
abbrev pub stream : List Arrival → Bytes
stream [] = []
stream (arrives bs ∷ qs) = bs ++ stream qs
stream (fails e ∷ qs) = stream qs

-- The connection stays open, and is interrupted no more often than recv tries again.
abbrev pub Flows : ℕ → List Arrival → Type 0
Flows retry [] = Unit {0}
Flows retry (arrives bs ∷ qs) = (0 < length bs) × Flows retry qs
Flows retry (fails e ∷ qs) = (e ≡ eintr) × (retry < max_recv_retries) × Flows (retry + 1) qs

Flows-mono : (p q : ℕ) (qs : List Arrival) → p ≤ q → Flows q qs → Flows p qs
Flows-mono p q [] le h = tt
Flows-mono p q (arrives bs ∷ qs) le h = (h.0, Flows-mono p q qs le h.1)
Flows-mono p q (fails e ∷ qs) le h =
    (h.0, omega arith, Flows-mono (p + 1) (q + 1) qs (omega arith) h.2)

pub wait_ready-settle :
    (late : Rc) (ps qs : List Poll)
    → settle ps ≡ some qs
    → wait_ready late ps ≡ returns (answered 1, qs)
unfolding wait_ready
wait_ready-settle late [] qs h = cc
wait_ready-settle late (ready ∷ ps) qs h = let e : ps ≡ qs = cc in rw e
wait_ready-settle late (elapsed ∷ ps) qs h = cc
wait_ready-settle late (failed e ∷ ps) qs h = elim (Bool-cases (e == eintr)) [
  | inl t ↦ rw t (wait_ready-settle late ps qs (rw t at h))
  | inr t ↦ let no = (rw t at h) in cc
]

-- What a run of the loop is to give.
abbrev Gathers : Rc → ℕ → ℕ → List Arrival → ℕ → Bytes → Type 0
Gathers rc timeout retry qs len got =
    (qs' : List Arrival) × (recv_loop rc timeout false retry qs len got
      ≡ returns (edb_ok, got ++ take len (stream qs), qs'))
    × (stream qs' ≡ drop len (stream qs))
    × Flows 0 qs'

nothing_left :
    (rc : Rc) (timeout retry : ℕ) (qs : List Arrival) (got : Bytes)
    → Flows retry qs
    → Gathers rc timeout retry qs 0 got
unfolding recv_loop
nothing_left rc timeout retry [] got h = ([], rw (append-nil got), refl, tt)
nothing_left rc timeout retry (arrives bs ∷ qs) got h = (
  arrives bs ∷ qs,
  rw (append-nil got),
  refl,
  Flows-mono 0 retry (arrives bs ∷ qs) (omega arith) h,
)
nothing_left rc timeout retry (fails e ∷ qs) got h =
    (fails e ∷ qs, rw (append-nil got), refl, Flows-mono 0 retry (fails e ∷ qs) (omega arith) h)

gathers :
    (rc : Rc) (timeout retry : ℕ) (qs : List Arrival) (len : ℕ) (got : Bytes)
    → Flows retry qs
    → len ≤ length (stream qs)
    → Gathers rc timeout retry qs len got
unfolding recv_loop
gathers rc timeout retry qs zero got h le = nothing_left rc timeout retry qs got h
gathers rc timeout retry [] (suc len) got h le = absurd (omega arith)
gathers rc timeout retry (arrives bs ∷ qs) (suc len) got h le =
    let some_bytes : (length bs == 0) ≡ false = ground arith in
    let more : (suc len == 0) ≡ false = ground arith in
    elim (Bool-cases (ltb (suc len) (length bs))) [
      | inl t ↦ (
        arrives (drop (suc len) bs) ∷ qs,
        rw (more, some_bytes, t, take-append_inside (suc len) bs (stream qs) (ground arith)),
        sym (drop-append_inside (suc len) bs (stream qs) (ground arith)),
        (ground (arith, length-drop (suc len) bs), Flows-mono 0 retry qs (omega arith) h.1),
      )
      | inr t ↦
          let (qs', run, left, flows) =
            gathers rc timeout retry qs (suc len - length bs) (got ++ bs) h.1
              (omega (arith, length-append bs (stream qs))) in
          (
            qs',
            rw (more, some_bytes, t, take-append_behind (suc len) bs (stream qs) (ground arith))
                (run
                  ∙ ap (λ g. returns (edb_ok, g, qs'))
                      (append_assoc got bs (take (suc len - length bs) (stream qs)))),
            left ∙ sym (drop-append_behind (suc len) bs (stream qs) (ground arith)),
            flows,
          )
    ]
gathers rc timeout retry (fails e ∷ qs) (suc len) got (i, r, h) le =
    let more : (suc len == 0) ≡ false = ground arith in
    let (qs', run, left, flows) = gathers rc timeout (retry + 1) qs (suc len) got h le in
    let again : (e == eintr) && ltb retry max_recv_retries ≡ true = ground arith in
    let not_late : (e == eagain) && ltb 0 timeout ≡ false = ground arith in
    (qs', rw (more, not_late, again) run, left, flows)

-- ossSocket::recv of some bytes, not to be left in the system, where select says ready after
-- interruptions only, the connection stays open, at most five interruptions come, and enough bytes
-- come in pieces of any size: it returns EDB_OK and the first bytes in their order, and leaves the
-- others to come, in a connection that is again so.
pub recv-gathers :
    (s : Socket) (len : ℕ) (ps : List Poll)
    → 0 < len
    → settle s.polls ≡ some ps
    → Flows 0 s.arrivals
    → len ≤ length (stream s.arrivals)
    → (qs : List Arrival) × (recv s len false
        ≡ returns ((edb_ok, take len (stream s.arrivals)), record s { polls = ps; arrivals = qs }))
      × (stream qs ≡ drop len (stream s.arrivals))
      × Flows 0 qs
unfolding recv
recv-gathers s len ps more waits flows enough =
    let (qs, run, left, flows') = gathers (os_error 1) s.timeout 0 s.arrivals len [] flows enough in
    let asked : (len == 0) ≡ false = ground arith in
    (qs, rw (asked, wait_ready-settle edb_timeout s.polls ps waits, run), left, flows')
