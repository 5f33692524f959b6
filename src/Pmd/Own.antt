-- ===== src/Pmd/Own.antt =====
-- What an operation of pmdEduMgr does to a thread of the run queue, by its status
-- (pmd/pmdEduMgr.cpp).
use edbc.Base.{ℕ, ◌+◌, ◌≡◌, ap, ◌∙◌, true, false, not, ◌||◌, some, ltb, length, arith}
use edbc.Base.Outcome.{returns}
use edbc.Base.Outcome.Rc.{edb_ok, edb_edu_invalid_status}
use edbc.Base.Assoc.{lookup, erase, erase_value}
use edbc.Pmd.Edu.{creating, running, waiting, EduCb, set_status}
use edbc.Pmd.Manager.{
  EduMgr, is_poolable, in_status, set_run, activate_edu, activate_body, wait_edu, wait_body,
  destroy_edu, destroy_body,
}
use edbc.Pmd.Service.{any_edu, return_edu}
use edbc.Pmd.Invariant.{IsManaged, under_w-run, under_r-run}
use edbc.Pmd.Steps.{if_true, same_latch}

-- The bodies of the operations on a thread in the run queue.
module _ (m : EduMgr) (eid : ℕ) (cb : EduCb) (h : IsManaged m)
    (f : lookup eid m.run_queue ≡ some cb) where
  pub activate_new :
      in_status creating cb ≡ true
      → activate_edu eid m ≡ returns (edb_ok, set_run eid (set_status running cb) m)
  unfolding activate_edu activate_body
  activate_new s =
      let not_running : in_status running cb ≡ false = ground arith in
      under_w-run m (activate_body eid) h.free
      ∙ rw (activate_body, f, not_running, s)
          (ap (λ n. returns (edb_ok, set_run eid (set_status running cb) n)) (same_latch m h))

  pub activate_waiting :
      in_status waiting cb ≡ true
      → activate_edu eid m ≡ returns (edb_ok, set_run eid (set_status running cb) m)
  unfolding activate_edu activate_body
  activate_waiting s =
      let not_running : in_status running cb ≡ false = ground arith in
      let not_creating : in_status creating cb ≡ false = ground arith in
      under_w-run m (activate_body eid) h.free
      ∙ rw (activate_body, f, not_running, not_creating, s)
          (ap (λ n. returns (edb_ok, set_run eid (set_status running cb) n)) (same_latch m h))

  pub wait_waiting : in_status waiting cb ≡ true → wait_edu eid m ≡ returns (edb_ok, m)
  unfolding wait_edu wait_body
  wait_waiting s =
      under_r-run m (wait_body eid) h.free
      ∙ rw (wait_body, f, s) (ap (λ n. returns (edb_ok, n)) (same_latch m h))

  pub wait_running :
      in_status running cb ≡ true
      → wait_edu eid m ≡ returns (edb_ok, set_run eid (set_status waiting cb) m)
  unfolding wait_edu wait_body
  wait_running s =
      let not_waiting : in_status waiting cb ≡ false = ground arith in
      under_r-run m (wait_body eid) h.free
      ∙ rw (wait_body, f, not_waiting, s)
          (ap (λ n. returns (edb_ok, set_run eid (set_status waiting cb) n)) (same_latch m h))

  pub destroy_waiting :
      in_status waiting cb ≡ true
      → destroy_edu eid m
        ≡ returns (
          edb_ok,
          record m {
            run_queue = erase eid m.run_queue;
            tid2eid_map = erase_value eid m.tid2eid_map;
          },
        )
  unfolding destroy_edu destroy_body
  destroy_waiting s =
      let either : in_status waiting cb || in_status creating cb ≡ true = ground arith in
      under_w-run m (destroy_body eid) h.free
      ∙ rw (destroy_body, f, either)
          (ap
            (λ n. returns (
              edb_ok,
              record n {
                run_queue = erase eid m.run_queue;
                tid2eid_map = erase_value eid m.tid2eid_map;
              },
            ))
            (same_latch m h))

  -- A thread that waits and is forced is given back and destroyed.
  pub return_edu-destroys :
      (max_pool_size : ℕ)
      → in_status waiting cb ≡ true
      → return_edu max_pool_size eid true true m
        ≡ returns (
          (edb_ok, some true),
          record m {
            run_queue = erase eid m.run_queue;
            tid2eid_map = erase_value eid m.tid2eid_map;
          },
        )
  unfolding return_edu
  return_edu-destroys max_pool_size s =
      let found : any_edu eid m ≡ some cb = rw (any_edu, f) in
      let goes : not (is_poolable cb.type_)
            || true
            || m.is_destroyed
            || ltb max_pool_size (length m.run_queue + length m.idle_queue)
          ≡ true =
        ground arith in
      rw (under_r-run m (λ n. (any_edu eid n, n)) h.free, found, same_latch m h)
        (if_true _ goes _ _ ∙ rw (destroy_waiting s))

  -- In a manager as it always is, destroyEduInternal of a running thread returns
  -- EDB_EDU_INVALID_STATUS and changes nothing.
  pub destroy_running :
      in_status running cb ≡ true → destroy_edu eid m ≡ returns (edb_edu_invalid_status, m)
  unfolding destroy_edu destroy_body
  destroy_running s =
      let neither : in_status waiting cb || in_status creating cb ≡ false = ground arith in
      under_w-run m (destroy_body eid) h.free
      ∙ rw (destroy_body, f, neither)
          (ap (λ n. returns (edb_edu_invalid_status, n)) (same_latch m h))
