-- ===== src/Pmd/Manager.antt =====
-- pmdEduMgr (include/pmdEduMgr.hpp and pmd/pmdEduMgr.cpp).
use edbc.Base.{ℕ, Bool, false, not, ◌||◌, none, some, [], ◌==◌, if◌then◌else◌}
use edbc.Base.Outcome.{Outcome, returns, ◌>>=◌, Rc}
use edbc.Base.Outcome.Rc.{edb_ok, edb_sys, edb_edu_invalid_status}
use edbc.Base.Latch.{RwLatch, unlocked, w_lock, r_lock, w_unlock, r_unlock}
use edbc.Base.Assoc.{Assoc, lookup, put, erase, erase_value}
use edbc.Pmd.Edu.{
  EduType, agent, type_code, EduStatus, creating, running, waiting, idle, status_code, EduCb,
  set_status,
}

pub record EduMgr : Type 0 where
  pub run_queue : Assoc EduCb
  pub idle_queue : Assoc EduCb
  pub tid2eid_map : Assoc ℕ
  pub latch : RwLatch
  pub global_edu_id : ℕ
  pub system_edu_id_map : Assoc ℕ
  pub stop_service : Bool
  pub is_destroyed : Bool

abbrev pub new_mgr : EduMgr
new_mgr = record {
  run_queue = [];
  idle_queue = [];
  tid2eid_map = [];
  latch = unlocked;
  global_edu_id = 1;
  system_edu_id_map = [];
  stop_service = false;
  is_destroyed = false;
}

-- The code between wLock and wUnlock, and between rLock and rUnlock.
abbrev pub under_w {ℓ} : {A : Type ℓ} → EduMgr → (EduMgr → A × EduMgr) → Outcome (A × EduMgr)
under_w m body = do
  l ← w_lock m.latch
  let r = body m
  l' ← w_unlock l
  returns (r.0, record (r.1) { latch = l' })

abbrev pub under_r {ℓ} : {A : Type ℓ} → EduMgr → (EduMgr → A × EduMgr) → Outcome (A × EduMgr)
under_r m body = do
  l ← r_lock m.latch
  let r = body m
  l' ← r_unlock l
  returns (r.0, record (r.1) { latch = l' })

-- isEduInStatus and isPoolable.
abbrev pub in_status : EduStatus → EduCb → Bool
in_status s cb = status_code cb.status == status_code s

abbrev pub is_poolable : EduType → Bool
is_poolable t = type_code t == type_code agent

abbrev pub set_run : ℕ → EduCb → EduMgr → EduMgr
set_run eid cb m = record m { run_queue = put eid cb m.run_queue }

abbrev pub set_idle : ℕ → EduCb → EduMgr → EduMgr
set_idle eid cb m = record m { idle_queue = put eid cb m.idle_queue }

unfoldable pub activate_body : ℕ → EduMgr → Rc × EduMgr
activate_body eid m = elim (lookup eid m.run_queue) [
  | none ↦ elim (lookup eid m.idle_queue) [
    | none ↦ (edb_sys, m)
    | some cb ↦
        if in_status idle cb
        then (
          edb_ok,
          record (set_run eid (set_status running cb) m) { idle_queue = erase eid m.idle_queue },
        )
        else (edb_edu_invalid_status, m)
  ]
  | some cb ↦
      if in_status running cb
      then (edb_ok, m)
      else if in_status creating cb || in_status waiting cb
      then (edb_ok, set_run eid (set_status running cb) m)
      else (edb_edu_invalid_status, m)
]

unfoldable pub activate_edu : ℕ → EduMgr → Outcome (Rc × EduMgr)
activate_edu eid m = under_w m (activate_body eid)

unfoldable pub wait_body : ℕ → EduMgr → Rc × EduMgr
wait_body eid m = elim (lookup eid m.run_queue) [
  | none ↦ (edb_sys, m)
  | some cb ↦
      if in_status waiting cb
      then (edb_ok, m)
      else if in_status running cb
      then (edb_ok, set_run eid (set_status waiting cb) m)
      else (edb_edu_invalid_status, m)
]

-- waitEdu changes the status under the read latch.
unfoldable pub wait_edu : ℕ → EduMgr → Outcome (Rc × EduMgr)
wait_edu eid m = under_r m (wait_body eid)

-- destroyEduInternal, with the control block deleted.
unfoldable pub destroy_body : ℕ → EduMgr → Rc × EduMgr
destroy_body eid m = elim (lookup eid m.run_queue) [
  | none ↦ elim (lookup eid m.idle_queue) [
    | none ↦ (edb_sys, m)
    | some cb ↦
        if in_status idle cb
        then (
          edb_ok,
          record m {
            idle_queue = erase eid m.idle_queue;
            tid2eid_map = erase_value eid m.tid2eid_map;
          },
        )
        else (edb_edu_invalid_status, m)
  ]
  | some cb ↦
      if in_status waiting cb || in_status creating cb
      then (
        edb_ok,
        record m { run_queue = erase eid m.run_queue; tid2eid_map = erase_value eid m.tid2eid_map },
      )
      else (edb_edu_invalid_status, m)
]

unfoldable pub destroy_edu : ℕ → EduMgr → Outcome (Rc × EduMgr)
destroy_edu eid m = under_w m (destroy_body eid)

-- deactivateEduInternal
unfoldable pub deactivate_body : ℕ → EduMgr → Rc × EduMgr
deactivate_body eid m = elim (lookup eid m.run_queue) [
  | none ↦ elim (lookup eid m.idle_queue) [ none ↦ (edb_sys, m) | some _ ↦ (edb_ok, m) ]
  | some cb ↦
      if in_status idle cb
      then (edb_ok, m)
      else if not (in_status waiting cb) || not (in_status creating cb)
      then (edb_edu_invalid_status, m)
      else (
        edb_ok,
        set_idle eid (set_status idle cb) (record m { run_queue = erase eid m.run_queue }),
      )
]

unfoldable pub deactivate_edu : ℕ → EduMgr → Outcome (Rc × EduMgr)
deactivate_edu eid m = under_w m (deactivate_body eid)
