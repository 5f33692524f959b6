-- ===== src/Pmd/Service.antt =====
-- The rest of pmdEduMgr: events, forcing, counting, the return of a thread, and lookups
-- (pmd/pmdEduMgr.cpp, include/pmdEduMgr.hpp).
use edbc.Base.{
  ℕ, ◌+◌, Bool, true, false, not, ◌&&◌, ◌||◌, Option, none, some, ltb, if◌then◌else◌, length,
}
use edbc.Base.Outcome.{Outcome, returns, fault, ◌>>=◌, Rc}
use edbc.Base.Outcome.Rc.{edb_ok, edb_sys, edb_timeout, edb_force_system_edu_error}
use edbc.Base.Latch.{w_lock, r_lock, w_unlock, r_unlock}
use edbc.Base.Assoc.{lookup, put, map_where, count_where, has_value}
use edbc.Pmd.Edu.{EduType, type_code, Event, EduCb, force, push_event, wait_event}
use edbc.Pmd.Manager.{
  EduMgr, under_w, under_r, is_poolable, set_run, set_idle, destroy_edu, deactivate_edu,
}

-- EduPrivilege: which of the tests `SYSTEM & prop` and `USER & prop` holds.
pub data EduPrivilege : Type 0 where
  system user all : EduPrivilege

abbrev pub with_system : EduPrivilege → Bool
with_system system = true
with_system user = false
with_system all = true

abbrev pub with_user : EduPrivilege → Bool
with_user system = false
with_user user = true
with_user all = true

-- isSystemEidInternal
abbrev pub is_system_eid : EduMgr → ℕ → Bool
is_system_eid m eid = has_value eid m.system_edu_id_map

-- The test of forceEdusInternal and getEduCntInternal on the run queue.
abbrev pub concerns : EduPrivilege → EduMgr → ℕ → Bool
concerns prop m eid =
    (with_system prop && is_system_eid m eid) || (with_user prop && not (is_system_eid m eid))

unfoldable pub force_edus_body : EduPrivilege → EduMgr → Rc × EduMgr
force_edus_body prop m = (
  edb_ok,
  record m {
    run_queue = map_where (concerns prop m) force m.run_queue;
    idle_queue = map_where (λ eid. with_user prop) force m.idle_queue;
  },
)

-- forceEdusInternal
unfoldable pub force_edus : EduPrivilege → EduMgr → Outcome (Rc × EduMgr)
force_edus prop m = under_w m (force_edus_body prop)

abbrev pub edu_cnt : EduPrivilege → EduMgr → ℕ
edu_cnt prop m =
    count_where (concerns prop m) m.run_queue + count_where (λ eid. with_user prop) m.idle_queue

-- getEduCntInternal
unfoldable pub get_edu_cnt : EduPrivilege → EduMgr → Outcome (ℕ × EduMgr)
get_edu_cnt prop m = under_r m (λ n. (edu_cnt prop n, n))

-- forceUserEdu: isSystemEid takes the read latch under the write latch. A control block is found
-- by its own id there, which is its key.
unfoldable pub force_user_edu : ℕ → EduMgr → Outcome (Rc × EduMgr)
force_user_edu eid m = do
  l ← w_lock m.latch
  l1 ← r_lock l
  l2 ← r_unlock l1
  l3 ← w_unlock l2
  let n = record m { latch = l3 }
  if is_system_eid m eid
      then returns (edb_force_system_edu_error, n)
      else elim (lookup eid m.run_queue) [
        | some cb ↦ returns (edb_ok, set_run eid (force cb) n)
        | none ↦ elim (lookup eid m.idle_queue) [
          | some cb ↦ returns (edb_ok, set_idle eid (force cb) n)
          | none ↦ returns (edb_ok, n)
        ]
      ]

unfoldable pub publish_body : ℕ → Event → EduMgr → Rc × EduMgr
publish_body eid e m = elim (lookup eid m.run_queue) [
  | some cb ↦ (edb_ok, set_run eid (push_event e cb) m)
  | none ↦ elim (lookup eid m.idle_queue) [
    | some cb ↦ (edb_ok, set_idle eid (push_event e cb) m)
    | none ↦ (edb_sys, m)
  ]
]

-- publishEvent
unfoldable pub publish_event : ℕ → Event → EduMgr → Outcome (Rc × EduMgr)
publish_event eid e m = under_r m (publish_body eid e)

-- waitEvent: the code, the event that was got, and the manager.
abbrev pub got : Option Event × EduCb → (EduCb → EduMgr) → (Rc × Option Event) × EduMgr
got (none, cb) write = ((edb_timeout, none), write cb)
got (some e, cb) write = ((edb_ok, some e), write cb)

unfoldable pub wait_for_event :
    ℕ → Bool → Option Event → EduMgr → Outcome ((Rc × Option Event) × EduMgr)
wait_for_event eid limited arrival m = do
  l ← r_lock m.latch
  l' ← r_unlock l
  let n = record m { latch = l' }
  elim (lookup eid m.run_queue) [
    | some cb ↦ wait_event cb limited arrival >>= (λ r. returns (got r (λ c. set_run eid c n)))
    | none ↦ elim (lookup eid m.idle_queue) [
      | some cb ↦ wait_event cb limited arrival >>= (λ r. returns (got r (λ c. set_idle eid c n)))
      | none ↦ returns ((edb_sys, none), n)
    ]
  ]

-- The end of returnEdu: the code, *destroyed where the pointer is not null, and the manager.
abbrev pub after_destroy : Bool → Rc × EduMgr → (Rc × Option Bool) × EduMgr
after_destroy wanted (rc, m) = (
  (
    rc,
    if wanted
        then some (elim rc as (λ _. Bool) [ edb_ok ↦ true | edb_sys ↦ true | _ ↦ false ])
        else none,
  ),
  m,
)

abbrev pub after_deactivate : Bool → Rc × EduMgr → (Rc × Option Bool) × EduMgr
after_deactivate wanted (rc, m) =
    ((rc, if wanted then some (elim rc as (λ _. Bool) [ edb_sys ↦ true | _ ↦ false ]) else none), m)

-- The control block that returnEdu, getEdu and getEduByEid find.
abbrev pub any_edu : ℕ → EduMgr → Option EduCb
any_edu eid m = elim (lookup eid m.run_queue) [ some cb ↦ some cb | none ↦ lookup eid m.idle_queue ]

unfoldable pub return_edu : ℕ → ℕ → Bool → Bool → EduMgr → Outcome ((Rc × Option Bool) × EduMgr)
return_edu max_pool_size eid forced wanted m = do
  r ← under_r m (λ n. (any_edu eid n, n))
  elim (r.0) [
    | none ↦ if wanted then returns ((edb_sys, some false), r.1) else fault
    | some cb ↦
        if not (is_poolable cb.type_)
          || forced
          || m.is_destroyed
          || ltb max_pool_size (length m.run_queue + length m.idle_queue)
        then destroy_edu eid (r.1) >>= (λ s. returns (after_destroy wanted s))
        else deactivate_edu eid (r.1) >>= (λ s. returns (after_deactivate wanted s))
  ]

-- getEduByEid
unfoldable pub get_edu_by_eid : ℕ → EduMgr → Outcome (Option EduCb × EduMgr)
get_edu_by_eid eid m = under_r m (λ n. (any_edu eid n, n))

-- getEdu
unfoldable pub get_edu : ℕ → EduMgr → Outcome (Option EduCb × EduMgr)
get_edu tid m =
    under_r m (λ n. (elim (lookup tid n.tid2eid_map) [ none ↦ none | some eid ↦ any_edu eid n ], n))

-- setEdu, registSysEdu, getSystemEid (0 is INVALID_EDU_ID), and size.
unfoldable pub set_edu : ℕ → ℕ → EduMgr → Outcome (Unit {0} × EduMgr)
set_edu tid eid m = under_w m (λ n. (tt, record n { tid2eid_map = put tid eid n.tid2eid_map }))

unfoldable pub regist_sys_edu : EduType → ℕ → EduMgr → Outcome (Unit {0} × EduMgr)
regist_sys_edu t eid m =
    under_w m
      (λ n. (tt, record n { system_edu_id_map = put (type_code t) eid n.system_edu_id_map }))

unfoldable pub get_system_eid : EduType → EduMgr → Outcome (ℕ × EduMgr)
get_system_eid t m =
    under_r m
      (λ n. (elim (lookup (type_code t) n.system_edu_id_map) [ none ↦ 0 | some eid ↦ eid ], n))

unfoldable pub mgr_size : EduMgr → Outcome (ℕ × EduMgr)
mgr_size m = under_r m (λ n. (length n.run_queue + length n.idle_queue, n))

-- setStopService and setDestroyedInternal, without the latch.
abbrev pub set_stop_service : Bool → EduMgr → EduMgr
set_stop_service b m = record m { stop_service = b }

abbrev pub set_destroyed : Bool → EduMgr → EduMgr
set_destroyed b m = record m { is_destroyed = b }
