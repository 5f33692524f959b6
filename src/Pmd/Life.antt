-- ===== src/Pmd/Life.antt =====
-- The calls that a pmdEduMgr goes through, and what holds at every point (pmd/pmdEduMgr.cpp).
use edbc.Base.{
  ℕ, ◌+◌, ◌≡◌, ◌∙◌, Bool, true, false, not, ◌||◌, Option, none, some, ltb, length, arith,
}
use edbc.Base.Outcome.{Outcome, returns, Rc}
use edbc.Base.Outcome.Rc.{edb_edu_invalid_status}
use edbc.Base.Assoc.{lookup}
use edbc.Pmd.Edu.{EduType, type_code, Event, EduCb}
use edbc.Pmd.Manager.{
  EduMgr, under_r, new_mgr, is_poolable, activate_edu, wait_edu, deactivate_edu, deactivate_body,
}
use edbc.Pmd.Start.{Host, start_edu}
use edbc.Pmd.Service.{
  EduPrivilege, edu_cnt, get_edu_cnt, mgr_size, get_edu_by_eid, get_edu, get_system_eid,
  set_stop_service, set_destroyed, force_edus, publish_event, wait_for_event, any_edu, return_edu,
  set_edu, regist_sys_edu,
}
use edbc.Pmd.Invariant.{
  IsManaged, new_mgr-IsManaged, under_w-run, under_r-run, deactivate_body-same,
}
use edbc.Pmd.Keeps.{
  Settles, under_r-Settles, activate_edu-Settles, wait_edu-Settles, publish_event-Settles,
  set_edu-Settles, regist_sys_edu-Settles, force_edus-Settles,
}
use edbc.Pmd.Steps.{
  if_false, same_latch, start_edu-Settles, wait_for_event-Settles, return_edu-Settles,
}

-- A call of the manager by any thread, that returns. destroyAllInternal is its steps, with those of
-- the other threads between; forceUserEdu is none, since it never returns; isSystemEid,
-- isStopService and isDestroyed, which only look, are left out.
pub data Step : EduMgr → EduMgr → Type 0 where
  start :
      {m n : EduMgr} (host : Host) (t : EduType) (arg eid : ℕ) (r : Rc × ℕ)
      → start_edu host t arg eid m ≡ returns (r, n)
      → Step m n
  activate : {m n : EduMgr} (eid : ℕ) (rc : Rc) → activate_edu eid m ≡ returns (rc, n) → Step m n
  wait : {m n : EduMgr} (eid : ℕ) (rc : Rc) → wait_edu eid m ≡ returns (rc, n) → Step m n
  return_to :
      {m n : EduMgr} (pool eid : ℕ) (forced wanted : Bool) (r : Rc × Option Bool)
      → return_edu pool eid forced wanted m ≡ returns (r, n)
      → Step m n
  publish :
      {m n : EduMgr} (eid : ℕ) (e : Event) (rc : Rc)
      → publish_event eid e m ≡ returns (rc, n)
      → Step m n
  receive :
      {m n : EduMgr} (eid : ℕ) (limited : Bool) (arrival : Option Event) (r : Rc × Option Event)
      → wait_for_event eid limited arrival m ≡ returns (r, n)
      → Step m n
  force_all :
      {m n : EduMgr} (prop : EduPrivilege) (rc : Rc)
      → force_edus prop m ≡ returns (rc, n)
      → Step m n
  stop : {m : EduMgr} (b : Bool) → Step m (set_stop_service b m)
  end : {m : EduMgr} (b : Bool) → Step m (set_destroyed b m)
  count :
      {m n : EduMgr} (prop : EduPrivilege) (total : ℕ)
      → get_edu_cnt prop m ≡ returns (total, n)
      → Step m n
  measure : {m n : EduMgr} (sz : ℕ) → mgr_size m ≡ returns (sz, n) → Step m n
  look_up :
      {m n : EduMgr} (eid : ℕ) (cb : Option EduCb)
      → get_edu_by_eid eid m ≡ returns (cb, n)
      → Step m n
  look_up_thread :
      {m n : EduMgr} (tid : ℕ) (cb : Option EduCb) → get_edu tid m ≡ returns (cb, n) → Step m n
  look_up_system :
      {m n : EduMgr} (t : EduType) (eid : ℕ) → get_system_eid t m ≡ returns (eid, n) → Step m n
  set_thread : {m n : EduMgr} (tid eid : ℕ) → set_edu tid eid m ≡ returns (tt, n) → Step m n
  regist :
      {m n : EduMgr} (t : EduType) (eid : ℕ) → regist_sys_edu t eid m ≡ returns (tt, n) → Step m n

pub data Reach : EduMgr → Type 0 where
  fresh : Reach new_mgr
  next : {m n : EduMgr} → Reach m → Step m n → Reach n

pub settled {ℓ} :
    {A : Type ℓ} (o : Outcome (A × EduMgr)) (a : A) (n : EduMgr)
    → Settles o
    → o ≡ returns (a, n)
    → IsManaged n
settled o a n h e = rw e at h

-- A call that only looks.
reads-Settles {ℓ} :
    {A : Type ℓ} (m : EduMgr) (look : EduMgr → A)
    → IsManaged m
    → Settles (under_r m (λ n. (look n, n)))
reads-Settles m look h = under_r-Settles m (λ n. (look n, n)) h h

Step-IsManaged : {m n : EduMgr} → Step m n → IsManaged m → IsManaged n
unfolding get_edu_cnt mgr_size get_edu_by_eid get_edu get_system_eid
Step-IsManaged {m} {n} (start host t arg eid r e) h =
    settled _ r n (start_edu-Settles m h host t arg eid) e
Step-IsManaged {m} {n} (activate eid rc e) h = settled _ rc n (activate_edu-Settles m h eid) e
Step-IsManaged {m} {n} (wait eid rc e) h = settled _ rc n (wait_edu-Settles m h eid) e
Step-IsManaged {m} {n} (return_to pool eid forced wanted r e) h =
    settled _ r n (return_edu-Settles m h pool eid forced wanted) e
Step-IsManaged {m} {n} (publish eid ev rc e) h = settled _ rc n (publish_event-Settles m h eid ev) e
Step-IsManaged {m} {n} (receive eid limited arrival r e) h =
    settled _ r n (wait_for_event-Settles m h eid limited arrival) e
Step-IsManaged {m} {n} (force_all prop rc e) h = settled _ rc n (force_edus-Settles m h prop) e
Step-IsManaged {m} (stop b) h = record { free = h.free; no_idle = h.no_idle; live = h.live }
Step-IsManaged {m} (end b) h = record { free = h.free; no_idle = h.no_idle; live = h.live }
Step-IsManaged {m} {n} (count prop total e) h =
    settled _ total n (reads-Settles m (edu_cnt prop) h) e
Step-IsManaged {m} {n} (measure sz e) h =
    settled _ sz n (reads-Settles m (λ k. length k.run_queue + length k.idle_queue) h) e
Step-IsManaged {m} {n} (look_up eid cb e) h = settled _ cb n (reads-Settles m (any_edu eid) h) e
Step-IsManaged {m} {n} (look_up_thread tid cb e) h =
    settled _ cb n
      (reads-Settles m
        (λ k. elim (lookup tid k.tid2eid_map) [ none ↦ none | some eid ↦ any_edu eid k ]) h)
      e
Step-IsManaged {m} {n} (look_up_system t eid e) h =
    settled _ eid n
      (reads-Settles m
        (λ k. elim (lookup (type_code t) k.system_edu_id_map) [ none ↦ 0 | some i ↦ i ]) h)
      e
Step-IsManaged {m} {n} (set_thread tid eid e) h = settled _ tt n (set_edu-Settles m h tid eid) e
Step-IsManaged {m} {n} (regist t eid e) h = settled _ tt n (regist_sys_edu-Settles m h t eid) e

-- At every point of a manager's life, after any sequence of calls by any threads that each return,
-- its latch is free, no thread is pooled, and each thread in the run queue is under its own id,
-- and is created, running or waiting.
pub Reach-IsManaged : {m : EduMgr} → Reach m → IsManaged m
Reach-IsManaged fresh = new_mgr-IsManaged
Reach-IsManaged (next r s) = Step-IsManaged s (Reach-IsManaged r)

deactivate_edu-refuses :
    (m : EduMgr) (eid : ℕ) (cb : EduCb)
    → IsManaged m
    → lookup eid m.run_queue ≡ some cb
    → deactivate_edu eid m ≡ returns (edb_edu_invalid_status, m)
unfolding deactivate_edu
deactivate_edu-refuses m eid cb h f =
    let same : deactivate_body eid m ≡ (edb_edu_invalid_status, m) =
      rw (deactivate_body-same m eid h, f) in
    under_w-run m (deactivate_body eid) h.free ∙ rw (same, same_latch m h)

-- An agent that is given back is neither pooled nor destroyed.
pub return_edu-refused :
    (m : EduMgr) (max_pool_size eid : ℕ) (cb : EduCb)
    → IsManaged m
    → lookup eid m.run_queue ≡ some cb
    → is_poolable cb.type_ ≡ true
    → m.is_destroyed ≡ false
    → ltb max_pool_size (length m.run_queue + length m.idle_queue) ≡ false
    → return_edu max_pool_size eid false true m ≡ returns ((edb_edu_invalid_status, some false), m)
unfolding return_edu
return_edu-refused m max_pool_size eid cb h f agents alive room =
    let found : any_edu eid m ≡ some cb = rw (any_edu, f) in
    let pooled : not (is_poolable cb.type_)
          || false
          || m.is_destroyed
          || ltb max_pool_size (length m.run_queue + length m.idle_queue)
        ≡ false =
      ground arith in
    rw (under_r-run m (λ n. (any_edu eid n, n)) h.free, found, same_latch m h)
      (if_false _ pooled _ _ ∙ rw (deactivate_edu-refuses m eid cb h f))

-- At every point of a manager's life that is not being destroyed, an agent in the run queue that
-- is given back, not forced and with room in the pool, is neither pooled nor destroyed: the code
-- is EDB_EDU_INVALID_STATUS, and the manager is as before.
pub return_edu-unpooled :
    (m : EduMgr) (max_pool_size eid : ℕ) (cb : EduCb)
    → Reach m
    → lookup eid m.run_queue ≡ some cb
    → is_poolable cb.type_ ≡ true
    → m.is_destroyed ≡ false
    → ltb max_pool_size (length m.run_queue + length m.idle_queue) ≡ false
    → return_edu max_pool_size eid false true m ≡ returns ((edb_edu_invalid_status, some false), m)
return_edu-unpooled m max_pool_size eid cb reach f agents alive room =
    return_edu-refused m max_pool_size eid cb (Reach-IsManaged reach) f agents alive room
