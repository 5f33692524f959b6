-- ===== src/Pmd/Drain.antt =====
-- destroyAllInternal (pmd/pmdEduMgr.cpp) with the threads that it waits for: each of them has a
-- round of pmdEntryPointProxy (pmd/pmdEdu.cpp) while it sleeps.
use edbc.Base.{
  ℕ, ◌≡◌, refl, sym, ap, ◌∙◌, inl, inr, Bool, true, false, ◌||◌, none, some, List, [], ◌∷◌, ◌==◌,
  ==_refl, if◌then◌else◌, Bool-cases, arith,
}
use edbc.Base.Outcome.{returns, ◌>>=◌}
use edbc.Base.Assoc.{Assoc, lookup}
use edbc.Pmd.Edu.{EduCb, waiting}
use edbc.Pmd.Manager.{EduMgr, in_status}
use edbc.Pmd.Invariant.{IsManaged}
use edbc.Pmd.Proxy.{EntryPoint, fresh_proxy, proxy_round}
use edbc.Pmd.Waits.{proxy_round-ends}
use edbc.Pmd.Shutdown.{Others}

-- A round of each of these threads, in which no event comes.
unfoldable pub thread_rounds : EntryPoint → ℕ → List ℕ → Others
thread_rounds exec max_pool_size [] m = returns m
thread_rounds exec max_pool_size (eid ∷ eids) m = do
  (_, p) ← proxy_round exec max_pool_size eid none (fresh_proxy m false)
  thread_rounds exec max_pool_size eids p.mgr

abbrev pub has : ℕ → List ℕ → Bool
has q [] = false
has q (e ∷ es) = (e == q) || has q es

-- The threads of the run queue are these, each once.
abbrev pub Present : List ℕ → EduMgr → Type 0
Present [] m = Unit {0}
Present (e ∷ es) m =
    ((cb : EduCb) × (lookup e m.run_queue ≡ some cb)) × (has e es ≡ false) × Present es m

pub record Threads (eids : List ℕ) (m : EduMgr) : Type 0 where
  pub present : Present eids m
  pub no_others : (q : ℕ) → has q eids ≡ false → lookup q m.run_queue ≡ none

-- Every thread waits, with no event.
abbrev pub Resting : EduMgr → Type 0
Resting m =
    (q : ℕ) (cb : EduCb)
    → lookup q m.run_queue ≡ some cb
    → (cb.queue ≡ []) × (in_status waiting cb ≡ true)

abbrev pub Forced : EduMgr → Type 0
Forced m = (q : ℕ) (cb : EduCb) → lookup q m.run_queue ≡ some cb → cb.is_forced ≡ true

pub nobody : (m : Assoc EduCb) → ((q : ℕ) → lookup q m ≡ none) → m ≡ []
unfolding lookup
nobody [] h = refl
nobody ((k, cb) ∷ m) h = let no : some cb ≡ none = sym (rw (==_refl k) refl) ∙ h k in cc

has-elsewhere : (e q : ℕ) (es : List ℕ) → has e es ≡ false → has q es ≡ true → (e == q) ≡ false
has-elsewhere e q es h k = elim (Bool-cases (e == q)) [
  | inr t ↦ t
  | inl t ↦
      let same : e ≡ q = ground arith in
      let no : true ≡ false = sym k ∙ ap (λ x. has x es) (sym same) ∙ h in cc
]

-- Threads other than the first keep their control blocks.
Present-same :
    (e : ℕ) (es : List ℕ) (m n : EduMgr)
    → ((q : ℕ) → lookup q n.run_queue ≡ (if e == q then none else lookup q m.run_queue))
    → has e es ≡ false
    → Present es m
    → Present es n
Present-same e [] m n same h p = tt
Present-same e (d ∷ es) m n same h ((cb, at), fresh, p) =
    let other : (e == d) ≡ false = ground (arith, h) in
    ((cb, same d ∙ rw other at), fresh, Present-same e es m n same (ground (arith, h)) p)

module _ (exec : EntryPoint) (max_pool_size : ℕ) where
  -- A round of every thread, all of which wait and are forced: no thread is left.
  pub rounds_done :
      (eids : List ℕ) (m : EduMgr)
      → IsManaged m
      → Threads eids m
      → Resting m
      → Forced m
      → (n : EduMgr) × (thread_rounds exec max_pool_size eids m ≡ returns n)
        × IsManaged n
        × (n.run_queue ≡ [])
  unfolding thread_rounds
  rounds_done [] m h t rest forced = (m, refl, h, nobody m.run_queue (λ q. t.no_others q refl))
  rounds_done (e ∷ es) m h t rest forced =
      let ((cb, at), fresh, p) = t.present in
      let (quiet, waits) = rest e cb at in
      let (q, round, managed, same) =
        proxy_round-ends exec max_pool_size e (fresh_proxy m false) cb h at quiet waits
          (forced e cb at) in
      let still = λ (r : ℕ) (c : EduCb) (u : lookup r q.mgr.run_queue ≡ some c).
        still_there m q.mgr e r c (same r) u in
      let (n, run, kept, empty) =
        rounds_done es q.mgr managed
          (record {
            present = Present-same e es m q.mgr same fresh p;
            no_others =
                λ r no. gone m q.mgr e r (same r) (λ ne. t.no_others r (ground (arith, no)));
          })
          (λ r c u. rest r c (still r c u)) (λ r c u. forced r c (still r c u)) in
      (n, rw round run, kept, empty)
    where
      still_there :
          (m n : EduMgr) (e r : ℕ) (c : EduCb)
          → lookup r n.run_queue ≡ (if e == r then none else lookup r m.run_queue)
          → lookup r n.run_queue ≡ some c
          → lookup r m.run_queue ≡ some c
      still_there m n e r c same u = elim (Bool-cases (e == r)) [
        | inl t ↦ let no : none ≡ some c = sym (same ∙ rw t refl) ∙ u in cc
        | inr t ↦ sym (same ∙ rw t refl) ∙ u
      ]

      gone :
          (m n : EduMgr) (e r : ℕ)
          → lookup r n.run_queue ≡ (if e == r then none else lookup r m.run_queue)
          → ((e == r) ≡ false → lookup r m.run_queue ≡ none)
          → lookup r n.run_queue ≡ none
      gone m n e r same other = elim (Bool-cases (e == r)) [
        | inl t ↦ same ∙ rw t refl
        | inr t ↦ same ∙ rw t (other t)
      ]
