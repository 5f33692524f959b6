-- ===== src/Pmd/Invariant.antt =====
-- What pmdEduMgr keeps from one operation to the next (pmd/pmdEduMgr.cpp).
use edbc.Base.{
  ℕ, ◌<◌, ◌≡◌, refl, sym, ◌∙◌, inl, inr, true, false, not, ◌||◌, none, some, [], ◌==◌, Bool-cases,
  Option-cases, arith,
}
use edbc.Base.Outcome.{returns}
use edbc.Base.Outcome.Rc.{edb_sys, edb_edu_invalid_status}
use mathlib.Core.Path.{subst}
use edbc.Base.Latch.{unlocked, w_lock, r_lock, w_unlock, r_unlock}
use edbc.Base.Assoc.{Assoc, lookup, erase, lookup-put, lookup-erase}
use edbc.Pmd.Edu.{running, waiting, idle, creating, status_code, EduCb, set_status}
use edbc.Pmd.Manager.{
  EduMgr, new_mgr, under_w, under_r, in_status, set_run, activate_body, wait_body, destroy_body,
  deactivate_body,
}

-- A thread in the run queue is under its own id, and is created, running or waiting.
pub record IsLive (eid : ℕ) (cb : EduCb) : Type 0 where
  pub own_id : cb.id ≡ eid
  pub alive : status_code cb.status < 3

pub record IsManaged (m : EduMgr) : Type 0 where
  pub free : m.latch ≡ unlocked
  pub no_idle : m.idle_queue ≡ []
  pub live : (eid : ℕ) (cb : EduCb) → lookup eid m.run_queue ≡ some cb → IsLive eid cb

pub under_w-run {ℓ} :
    {A : Type ℓ} (m : EduMgr) (body : EduMgr → A × EduMgr)
    → m.latch ≡ unlocked
    → under_w m body ≡ returns ((body m).0, record ((body m).1) { latch = unlocked })
unfolding w_lock w_unlock
under_w-run m body h = rw h

pub under_r-run {ℓ} :
    {A : Type ℓ} (m : EduMgr) (body : EduMgr → A × EduMgr)
    → m.latch ≡ unlocked
    → under_r m body ≡ returns ((body m).0, record ((body m).1) { latch = unlocked })
unfolding r_lock r_unlock
under_r-run m body h = rw h

pub no_idle-lookup : (m : EduMgr) (eid : ℕ) → IsManaged m → lookup eid m.idle_queue ≡ none
unfolding lookup
no_idle-lookup m eid h = rw h.no_idle

some_inj : {a b : EduCb} → some a ≡ some b → a ≡ b
some_inj e = cc

pub new_mgr-IsManaged : IsManaged new_mgr
unfolding lookup
new_mgr-IsManaged = record { free = refl; no_idle = refl; live = λ eid cb e. cc }

pub set_run-IsManaged :
    (m : EduMgr) (eid : ℕ) (cb : EduCb) → IsManaged m → IsLive eid cb → IsManaged (set_run eid cb m)
set_run-IsManaged m eid cb h k = record {
  free = h.free;
  no_idle = h.no_idle;
  live = λ q c e. elim (Bool-cases (eid == q)) [
    | inl t ↦
        let at : eid ≡ q = ground arith in
        let e' : some cb ≡ some c = sym (rw t at (lookup-put q eid cb m.run_queue)) ∙ e in
        subst (λ p. IsLive p c) at (subst (IsLive eid) (some_inj e') k)
    | inr t ↦ h.live q c (sym (rw t at (lookup-put q eid cb m.run_queue)) ∙ e)
  ];
}

pub erase_run-IsManaged :
    (m : EduMgr) (eid : ℕ)
    → IsManaged m
    → IsManaged (record m { run_queue = erase eid m.run_queue })
erase_run-IsManaged m eid h = record {
  free = h.free;
  no_idle = h.no_idle;
  live = λ q c e. elim (Bool-cases (eid == q)) [
    | inl t ↦ let gone : none ≡ some c = sym (rw t at (lookup-erase q eid m.run_queue)) ∙ e in cc
    | inr t ↦ h.live q c (sym (rw t at (lookup-erase q eid m.run_queue)) ∙ e)
  ];
}

-- The bodies of the operations.
pub activate_body-IsManaged :
    (m : EduMgr) (eid : ℕ) → IsManaged m → IsManaged ((activate_body eid m).1)
unfolding activate_body
activate_body-IsManaged m eid h = elim (Option-cases (lookup eid m.run_queue)) [
  | inl n ↦ rw (activate_body, n, no_idle-lookup m eid h) h
  | inr (cb, f) ↦
      rw (activate_body, f)
        (elim (Bool-cases (in_status running cb)) [
          | inl t ↦ rw t h
          | inr t ↦ rw t (elim (Bool-cases (in_status creating cb || in_status waiting cb)) [
            | inl u ↦ rw u (
                set_run-IsManaged m eid (set_status running cb) h
                  (record { own_id = (h.live eid cb f).own_id; alive = omega arith }))
            | inr u ↦ rw u h
          ])
        ])
]

pub wait_body-IsManaged : (m : EduMgr) (eid : ℕ) → IsManaged m → IsManaged ((wait_body eid m).1)
unfolding wait_body
wait_body-IsManaged m eid h = elim (Option-cases (lookup eid m.run_queue)) [
  | inl n ↦ rw (wait_body, n) h
  | inr (cb, f) ↦
      rw (wait_body, f)
        (elim (Bool-cases (in_status waiting cb)) [
          | inl t ↦ rw t h
          | inr t ↦ rw t (elim (Bool-cases (in_status running cb)) [
            | inl u ↦ rw u (
                set_run-IsManaged m eid (set_status waiting cb) h
                  (record { own_id = (h.live eid cb f).own_id; alive = omega arith }))
            | inr u ↦ rw u h
          ])
        ])
]

-- The map from threads to ids has no part in it.
pub other_tids : (m : EduMgr) (t : Assoc ℕ) → IsManaged m → IsManaged (record m { tid2eid_map = t })
other_tids m t h = record { free = h.free; no_idle = h.no_idle; live = h.live }

pub destroy_body-IsManaged :
    (m : EduMgr) (eid : ℕ) → IsManaged m → IsManaged ((destroy_body eid m).1)
unfolding destroy_body
destroy_body-IsManaged m eid h = elim (Option-cases (lookup eid m.run_queue)) [
  | inl n ↦ rw (destroy_body, n, no_idle-lookup m eid h) h
  | inr (cb, f) ↦
      rw (destroy_body, f)
        (elim (Bool-cases (in_status waiting cb || in_status creating cb)) [
          | inl t ↦ rw t (other_tids _ _ (erase_run-IsManaged m eid h))
          | inr t ↦ rw t h
        ])
]

-- deactivateEduInternal pools no thread: both tests hold of every status.
pub deactivate_body-same :
    (m : EduMgr) (eid : ℕ)
    → IsManaged m
    → deactivate_body eid m ≡ elim (lookup eid m.run_queue) [
      | none ↦ (edb_sys, m)
      | some cb ↦ (edb_edu_invalid_status, m)
    ]
unfolding deactivate_body
deactivate_body-same m eid h = elim (Option-cases (lookup eid m.run_queue)) [
  | inl n ↦ rw (deactivate_body, n, no_idle-lookup m eid h)
  | inr (cb, f) ↦
      let k = h.live eid cb f in
      let not_idle : in_status idle cb ≡ false = ground (arith, k.alive) in
      let refused : not (in_status waiting cb) || not (in_status creating cb) ≡ true =
        ground arith in
      rw (deactivate_body, f, not_idle, refused)
]
