-- ===== src/Oss/Send.antt =====
-- ossSocket::send (oss/ossSocket.cpp): the bytes go out in pieces, or a piece is refused.
use edbc.Base.{
  ℕ, ◌+◌, sym, ap, ◌-◌, ◌<◌, ◌≡◌, ◌≢◌, refl, ◌∙◌, inl, inr, false, some, List, [], ◌∷◌, ◌++◌,
  length, take, take-add, drop, take-append-drop, length-drop, ◌==◌, Bool-cases, arith,
}
use edbc.Base.Outcome.{Outcome, returns, ◌>>=◌, >>=-eq-returns, Rc}
use edbc.Base.Outcome.Rc.{os_error, edb_ok, edb_network, edb_timeout}
use edbc.Base.Bytes.{Bytes}
use edbc.Oss.Socket.{
  Poll, ready, elapsed, failed, Waited, answered, quits, Acceptance, takes, refuses, Socket, eintr,
  wait_ready, send_loop, send,
}
use edbc.Oss.Recv.{settle, wait_ready-settle}

-- The answers take `n` bytes before any of them is refused.
abbrev pub Accepts : ℕ → List Acceptance → Type 0
Accepts n [] = n ≡ 0
Accepts n (takes k ∷ qs) = Accepts (n - k) qs
Accepts n (refuses e ∷ qs) = n ≡ 0

-- Less than `n` bytes are taken before an answer is a refusal.
abbrev pub Refuses : ℕ → List Acceptance → Type 0
Refuses n [] = ⊥
Refuses n (takes k ∷ qs) = Refuses (n - k) qs
Refuses n (refuses e ∷ qs) = 0 < n

Refuses-pos : (n : ℕ) (qs : List Acceptance) → Refuses n qs → 0 < n
Refuses-pos n [] h = absurd h
Refuses-pos n (takes k ∷ qs) h = omega (arith, Refuses-pos (n - k) qs h)
Refuses-pos n (refuses e ∷ qs) h = h

delivers :
    (rc : Rc) (qs : List Acceptance) (msg : Bytes)
    → Accepts (length msg) qs
    → (qs' : List Acceptance) × (send_loop rc qs msg ≡ returns (edb_ok, msg, qs'))
unfolding send_loop
delivers rc qs [] h = (qs, refl)
delivers rc [] (b ∷ msg) h = absurd (omega arith)
delivers rc (refuses e ∷ qs) (b ∷ msg) h = absurd (omega arith)
delivers rc (takes n ∷ qs) (b ∷ msg) h =
    let (qs', run) = delivers rc qs (drop n (b ∷ msg)) (rw (length-drop n (b ∷ msg)) h) in
    (qs', rw (run, take-append-drop n (b ∷ msg)))

-- ossSocket::send of some bytes that the system takes in pieces of any size, where select says
-- ready after interruptions only: it returns EDB_OK, and the peer is given the bytes, whole and in
-- their order.
pub send-delivers :
    (s : Socket) (msg : Bytes) (ps : List Poll)
    → 0 < length msg
    → settle s.polls ≡ some ps
    → Accepts (length msg) s.acceptances
    → (qs : List Acceptance) × (send s msg
        ≡ returns (edb_ok, record s { polls = ps; acceptances = qs; sent = s.sent ++ msg }))
unfolding send
send-delivers s msg ps more waits room =
    let (qs, run) = delivers (os_error 1) s.acceptances msg room in
    let asked : (length msg == 0) ≡ false = ground arith in
    (qs, rw (asked, wait_ready-settle edb_network s.polls ps waits, run))

refused :
    (rc : Rc) (qs : List Acceptance) (msg : Bytes)
    → Refuses (length msg) qs
    → (k : ℕ) × (qs' : List Acceptance) × (k < length msg)
      × (send_loop rc qs msg ≡ returns (rc, take k msg, qs'))
unfolding send_loop
refused rc qs [] h = absurd (omega (arith, Refuses-pos 0 qs h))
refused rc [] (b ∷ msg) h = absurd h
refused rc (refuses e ∷ qs) (b ∷ msg) h = (0, qs, omega arith, refl)
refused rc (takes n ∷ qs) (b ∷ msg) h =
    let size = length-drop n (b ∷ msg) in
    let (k, qs', less, run) = refused rc qs (drop n (b ∷ msg)) (rw size h) in
    (
      n + k,
      qs',
      omega (arith, size),
      rw run (ap (λ x. returns (rc, x, qs')) (sym (take-add n k (b ∷ msg)))),
    )

-- ossSocket::send where select says ready after interruptions only, and the system refuses a piece
-- before all bytes are taken, with any errno: it returns 1, the answer of select, and the peer is
-- given a proper prefix of the bytes.
pub send-refused :
    (s : Socket) (msg : Bytes) (ps : List Poll)
    → settle s.polls ≡ some ps
    → Refuses (length msg) s.acceptances
    → (k : ℕ) × (qs : List Acceptance) × (k < length msg)
      × (send s msg
          ≡ returns
              (os_error 1, record s { polls = ps; acceptances = qs; sent = s.sent ++ take k msg }))
unfolding send
send-refused s msg ps waits h =
    let (k, qs, less, run) = refused (os_error 1) s.acceptances msg h in
    let asked : (length msg == 0) ≡ false =
      ground (arith, Refuses-pos (length msg) s.acceptances h) in
    (k, qs, less, rw (asked, wait_ready-settle edb_network s.polls ps waits, run))

never_late :
    (ps qs : List Poll) (rc : Rc)
    → wait_ready edb_network ps ≡ returns (quits rc, qs)
    → rc ≢ edb_timeout
unfolding wait_ready
never_late [] qs rc h = λ e. cc
never_late (ready ∷ ps) qs rc h = λ e. cc
never_late (elapsed ∷ ps) qs rc h = λ e. cc
never_late (failed n ∷ ps) qs rc h = elim (Bool-cases (n == eintr)) [
  | inl t ↦ never_late ps qs rc (rw t at h)
  | inr t ↦ λ e. let no = (rw t at h) in cc
]

loop_never_late :
    (old : Rc) (ts : List Acceptance) (msg sent : Bytes) (qs : List Acceptance) (rc : Rc)
    → old ≢ edb_timeout
    → send_loop old ts msg ≡ returns (rc, sent, qs)
    → rc ≢ edb_timeout
unfolding send_loop
loop_never_late old ts [] sent qs rc ne h = λ e. cc
loop_never_late old [] (b ∷ msg) sent qs rc ne h = λ e. cc
loop_never_late old (refuses n ∷ ts) (b ∷ msg) sent qs rc ne h =
    let same : old ≡ rc = cc in λ e. ne (same ∙ e)
loop_never_late old (takes n ∷ ts) (b ∷ msg) sent qs rc ne h =
    let (x, run, rest) = >>=-eq-returns (send_loop old ts (drop n (b ∷ msg))) _ h in
    let same : x.0 ≡ rc = cc in
    λ e. loop_never_late old ts (drop n (b ∷ msg)) x.1 x.2 x.0 ne run (same ∙ e)

-- The code behind the loop around select.
after_never_late :
    (w : Waited) (s : Socket) (msg : Bytes) (rc : Rc) (s' : Socket)
    → ((c : Rc) → w ≡ quits c → c ≢ edb_timeout)
    → elim w as (λ _. Outcome (Rc × Socket)) [
      | answered n ↦
          send_loop (os_error n) s.acceptances msg
          >>= (λ r. returns (r.0, record s { acceptances = r.2; sent = s.sent ++ r.1 }))
      | quits c ↦ returns (c, s)
    ]
      ≡ returns (rc, s')
    → rc ≢ edb_timeout
after_never_late (answered n) s msg rc s' late h =
    let (y, run, last) = >>=-eq-returns (send_loop (os_error n) s.acceptances msg) _ h in
    let same : y.0 ≡ rc = cc in
    λ e. loop_never_late (os_error n) s.acceptances msg y.1 y.2 y.0 (λ u. cc) run (same ∙ e)
after_never_late (quits c) s msg rc s' late h =
    let same : c ≡ rc = cc in λ e. late c refl (same ∙ e)

-- send never gives EDB_TIMEOUT.
pub send-ne-timeout :
    (s s' : Socket) (msg : Bytes) (rc : Rc) → send s msg ≡ returns (rc, s') → rc ≢ edb_timeout
unfolding send
send-ne-timeout s s' msg rc h = elim (Bool-cases (length msg == 0)) [
  | inl t ↦ λ e. let no = (rw t at h) in cc
  | inr t ↦
      let go = (rw t at h) in
      let ((w, ps), waited, rest) = >>=-eq-returns (wait_ready edb_network s.polls) _ go in
      after_never_late w (record s { polls = ps }) msg rc s'
        (λ c is. never_late s.polls ps c (waited ∙ ap (λ v. returns (v, ps)) is)) rest
]
