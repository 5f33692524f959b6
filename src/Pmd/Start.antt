-- ===== src/Pmd/Start.antt =====
-- pmdEduMgr::startEdu and createEduInternal (pmd/pmdEduMgr.cpp).
use edbc.Base.{ℕ, ◌+◌, ◌%◌, ◌^◌, Bool, false, not, Option, none, some, [], ◌∷◌, if◌then◌else◌}
use edbc.Base.Outcome.{Outcome, returns, ◌>>=◌, Rc, is_ok}
use edbc.Base.Outcome.Rc.{edb_ok, edb_sys, edb_stopservice_error, edb_invalid_argument}
use edbc.Base.Latch.{w_lock, w_unlock}
use edbc.Base.Assoc.{Assoc, lookup, put, erase}
use edbc.Pmd.Edu.{
  EduType, waiting, idle, Event, resume, EduCb, new_edu, set_status, set_type, set_id, push_event,
  has_entry_point,
}
use edbc.Pmd.Manager.{EduMgr, under_w, in_status, is_poolable, set_run}

abbrev pub resume_event : ℕ → Event
resume_event arg = record { type_ = resume; release = false; data_ = arg }

-- What the system gives: the control block's memory, and the thread.
pub record Host : Type 0 where
  pub allocates : Bool
  pub spawns : Bool

-- The part of createEduInternal under the latch: the code and the id that was given.
unfoldable pub register_body : EduType → EduMgr → (Rc × ℕ) × EduMgr
register_body t m =
    let eid = m.global_edu_id in
    let entered = record m {
      run_queue = put eid (set_id eid (new_edu t)) m.run_queue;
      global_edu_id = (eid + 1) % 2 ^ 64;
    } in
    elim (lookup eid m.run_queue) [
      | some _ ↦ ((edb_sys, 0), m)
      | none ↦ elim (lookup eid m.idle_queue) [
        | some _ ↦ ((edb_sys, 0), m)
        | none ↦ ((edb_ok, eid), entered)
      ]
    ]

-- The rest: the thread, and its first event.
unfoldable pub spawn_body : Host → ℕ → ℕ → EduMgr → Rc × EduMgr
spawn_body host arg eid m =
    if host.spawns
    then (
      edb_ok,
      elim (lookup eid m.run_queue) [
        | none ↦ m
        | some cb ↦ set_run eid (push_event (resume_event arg) cb) m
      ],
    )
    else (edb_sys, record m { run_queue = erase eid m.run_queue })

-- The thread is made for an id that was given.
abbrev pub after_register : Host → ℕ → ℕ → (Rc × ℕ) × EduMgr → Outcome ((Rc × ℕ) × EduMgr)
after_register host arg eid r =
    let s = spawn_body host arg r.0.1 r.1 in
    if is_ok r.0.0 then returns ((s.0, r.0.1), s.1) else returns ((r.0.0, eid), r.1)

-- createEduInternal: the code, *eid, and the manager. Where the memory is refused, rc is EDB_OK.
unfoldable pub create_edu : Host → EduType → ℕ → ℕ → EduMgr → Outcome ((Rc × ℕ) × EduMgr)
create_edu host t arg eid m =
    if m.stop_service
    then returns ((edb_stopservice_error, eid), m)
    else if not (has_entry_point t)
    then returns ((edb_invalid_argument, eid), m)
    else if not host.allocates
    then returns ((edb_ok, eid), m)
    else under_w m (register_body t) >>= after_register host arg eid

-- The first pooled thread that is idle.
unfoldable pub idle_edu : Assoc EduCb → Option (ℕ × EduCb)
idle_edu [] = none
idle_edu ((k, cb) ∷ q) = let rest = idle_edu q in if in_status idle cb then some (k, cb) else rest

-- startEdu takes a pooled thread that is idle.
abbrev pub reuse : EduType → ℕ → ℕ → EduCb → EduMgr → EduMgr
reuse t arg k cb m = record m {
  idle_queue = erase k m.idle_queue;
  run_queue =
      put k (push_event (resume_event arg) (set_status waiting (set_type t cb))) m.run_queue;
}

-- startEdu
unfoldable pub start_edu : Host → EduType → ℕ → ℕ → EduMgr → Outcome ((Rc × ℕ) × EduMgr)
start_edu host t arg eid m =
    if m.stop_service then returns ((edb_stopservice_error, eid), m) else (do
      l ← w_lock m.latch
      let locked = record m { latch = l }
      l' ← w_unlock l
      elim (if is_poolable t then idle_edu locked.idle_queue else none) [
        | none ↦ create_edu host t arg eid (record locked { latch = l' })
        | some (k, cb) ↦ returns ((edb_ok, k), reuse t arg k cb (record locked { latch = l' }))
      ])
