-- ===== src/Pmd/Wire.antt =====
-- pmdRecv and pmdSend (pmd/pmdEdu.cpp). Other threads force this one: what isForced() gives each
-- time that it is asked is a list, and a call that would ask once more is starved.
use edbc.Base.{
  ℕ, ◌≤◌, ◌<◌, ◌≡◌, refl, Bool, true, false, Option, none, some, List, [], ◌∷◌, length, take, drop,
  ◌==◌, if◌then◌else◌, Bool-cases, inl, inr, ◌≢◌, arith,
}
use edbc.Base.Outcome.{Outcome, returns, starved, ◌>>=◌, Rc}
use edbc.Base.Outcome.Rc.{edb_ok, edb_timeout, edb_app_forced}
use edbc.Base.Bytes.{Bytes}
use edbc.Oss.Socket.{Poll, ready, elapsed, failed, Arrival, Socket, eintr, wait_ready, recv, send}
use edbc.Oss.Send.{send-ne-timeout}
use edbc.Oss.Recv.{stream, Flows, recv-gathers}

unfoldable pub is_timeout : Rc → Bool
is_timeout edb_timeout = true
is_timeout _ = false

-- The code, the bytes, the socket, and the answers of isForced() that are left.
unfoldable pub pmd_recv : List Bool → Socket → ℕ → Outcome (((Rc × Bytes) × Socket) × List Bool)
pmd_recv [] s len = starved
pmd_recv (true ∷ fs) s len = returns (((edb_app_forced, []), s), fs)
pmd_recv (false ∷ fs) s len = do
  (r, s') ← recv s len false
  elim (is_timeout r.0) [ true ↦ pmd_recv fs s' len | false ↦ returns ((r, s'), fs) ]

unfoldable pub pmd_send : List Bool → Socket → Bytes → Outcome ((Rc × Socket) × List Bool)
pmd_send [] s msg = starved
pmd_send (true ∷ fs) s msg = returns ((edb_app_forced, s), fs)
pmd_send (false ∷ fs) s msg = do
  (rc, s') ← send s msg
  elim (is_timeout rc) [ true ↦ pmd_send fs s' msg | false ↦ returns ((rc, s'), fs) ]

is_timeout-false : (rc : Rc) → rc ≢ edb_timeout → is_timeout rc ≡ false
unfolding is_timeout
is_timeout-false edb_timeout h = absurd (h refl)
is_timeout-false rc h = ground arith

-- The answers of isForced() and of select up to the one that says ready, where the thread is not
-- forced, and each time-out has one more answer of isForced().
abbrev pub quiet : List Bool → List Poll → Option (List Bool × List Poll)
quiet fs [] = none
quiet fs (ready ∷ ps) = some (fs, ps)
quiet fs (failed e ∷ ps) = if e == eintr then quiet fs ps else none
quiet [] (elapsed ∷ ps) = none
quiet (true ∷ fs) (elapsed ∷ ps) = none
quiet (false ∷ fs) (elapsed ∷ ps) = quiet fs ps

module _ (s : Socket) (len : ℕ) (more : 0 < len) (flows : Flows 0 s.arrivals)
    (enough : len ≤ length (stream s.arrivals)) where
  recv-elapsed :
      (ps : List Poll)
      → recv (record s { polls = elapsed ∷ ps }) len false
        ≡ returns ((edb_timeout, []), record s { polls = ps })
  unfolding recv wait_ready
  recv-elapsed ps = let asked : (len == 0) ≡ false = ground arith in rw asked

  recv-interrupted :
      (e : ℕ) (ps : List Poll)
      → (e == eintr) ≡ true
      → recv (record s { polls = failed e ∷ ps }) len false
        ≡ recv (record s { polls = ps }) len false
  unfolding recv wait_ready
  recv-interrupted e ps t = let asked : (len == 0) ≡ false = ground arith in rw (asked, t)

  abbrev Served : List Bool → List Poll → List Bool → List Poll → Type 0
  Served fs ps fs' ps' =
      (qs : List Arrival) × (pmd_recv (false ∷ fs) (record s { polls = ps }) len
        ≡ returns (
          ((edb_ok, take len (stream s.arrivals)), record s { polls = ps'; arrivals = qs }),
          fs',
        ))
      × (stream qs ≡ drop len (stream s.arrivals))
      × Flows 0 qs

  -- pmdRecv over time-outs and interruptions gives the first `len` bytes.
  pub pmd_recv-gathers :
      (fs : List Bool) (ps : List Poll) (fs' : List Bool) (ps' : List Poll)
      → quiet fs ps ≡ some (fs', ps')
      → Served fs ps fs' ps'
  unfolding pmd_recv is_timeout
  pmd_recv-gathers fs [] fs' ps' h = cc
  pmd_recv-gathers fs (ready ∷ ps) fs' ps' h =
      let (qs, run, left, on) =
        recv-gathers (record s { polls = ready ∷ ps }) len ps more refl flows enough in
      let a : fs ≡ fs' = cc in let b : ps ≡ ps' = cc in (qs, rw (← a, ← b, run), left, on)
  pmd_recv-gathers fs (failed e ∷ ps) fs' ps' h = elim (Bool-cases (e == eintr)) [
    | inr t ↦ let no = (rw t at h) in cc
    | inl t ↦
        let (qs, run, left, on) = pmd_recv-gathers fs ps fs' ps' (rw t at h) in
        (qs, rw (recv-interrupted e ps t) run, left, on)
  ]
  pmd_recv-gathers [] (elapsed ∷ ps) fs' ps' h = cc
  pmd_recv-gathers (true ∷ fs) (elapsed ∷ ps) fs' ps' h = cc
  pmd_recv-gathers (false ∷ fs) (elapsed ∷ ps) fs' ps' h =
      let (qs, run, left, on) = pmd_recv-gathers fs ps fs' ps' h in
      (qs, rw (recv-elapsed ps) run, left, on)

-- pmdSend of a thread that is not forced is one call of send: a time-out of send is not the code
-- that pmdSend tries again on.
pub pmd_send-once :
    (fs : List Bool) (s s' : Socket) (msg : Bytes) (rc : Rc)
    → send s msg ≡ returns (rc, s')
    → pmd_send (false ∷ fs) s msg ≡ returns ((rc, s'), fs)
unfolding pmd_send
pmd_send-once fs s s' msg rc run =
    rw run (ground (arith, is_timeout-false rc (send-ne-timeout s s' msg rc run)))
