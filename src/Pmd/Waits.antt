-- ===== src/Pmd/Waits.antt =====
-- A round of pmdEntryPointProxy (pmd/pmdEdu.cpp) in which nothing comes: the thread waits on, or
-- ends where it is forced.
use edbc.Base.{
  ℕ, zero, suc, ◌≡◌, refl, ap, ◌∙◌, true, false, Option, none, some, List, [], ◌∷◌, ◌==◌, arith,
  ◌==◌, if◌then◌else◌,
}
use edbc.Base.Outcome.{returns, starved}
use edbc.Base.Assoc.{lookup, lookup-erase, lookup-put, erase, erase_value}
use edbc.Pmd.Edu.{
  Event, EduStatus, EduCb, creating, running, waiting, idle, destroy, status_unknown, status_code,
  woken, wait_event,
}
use edbc.Pmd.Manager.{EduMgr, set_run, in_status}
use edbc.Pmd.Service.{any_edu}
use edbc.Pmd.Invariant.{IsManaged, set_run-IsManaged, erase_run-IsManaged, other_tids}
use edbc.Pmd.Own.{return_edu-destroys}
use edbc.Pmd.Steps.{if_false, if_true}
use edbc.Pmd.Cycle.{looked_up}
use edbc.Pmd.Proxy.{
  Proxy, EntryPoint, release_space, act, on_event, proxy_round, proxy_loop, write_edu,
}

in_waiting : (s : EduStatus) → (status_code s == 2) ≡ true → s ≡ waiting
in_waiting creating h = cc
in_waiting running h = cc
in_waiting waiting h = refl
in_waiting idle h = cc
in_waiting destroy h = cc
in_waiting status_unknown h = cc

module _ (eid : ℕ) (p : Proxy) (cb : EduCb) (present : lookup eid p.mgr.run_queue ≡ some cb) where
  pub found : any_edu eid p.mgr ≡ some cb
  found = rw (any_edu, present)

  pub written : (c : EduCb) → write_edu eid c p.mgr ≡ set_run eid c p.mgr
  written c = rw (write_edu, present)

module _ (exec : EntryPoint) (max_pool_size eid : ℕ) (p : Proxy) (cb : EduCb)
    (managed : IsManaged p.mgr) (present : lookup eid p.mgr.run_queue ≡ some cb) where
  -- Nothing comes in time, and the thread waits as before.
  nothing_comes :
      cb.queue ≡ [] → in_status waiting cb ≡ true → wait_event cb true none ≡ returns (none, cb)
  unfolding wait_event
  nothing_comes queue s =
      rw (wait_event, queue)
        (ap (λ t. returns (none, woken cb t)) (in_waiting cb.status s)
          ∙ (λ i. returns (none, record cb { queue = queue i })))

  pub idles :
      cb.queue ≡ []
      → in_status waiting cb ≡ true
      → cb.is_forced ≡ false
      → proxy_round exec max_pool_size eid none p
        ≡ returns (false, record p { mgr = set_run eid cb p.mgr })
  unfolding proxy_round on_event
  idles queue s calm =
      rw (proxy_round, found eid p cb present, nothing_comes queue s)
        (if_false cb.is_forced calm _ _ ∙ rw (written eid p cb present cb) refl)

  abbrev kept : EduMgr
  kept = set_run eid cb p.mgr

  kept-IsManaged : IsManaged kept
  kept-IsManaged = set_run-IsManaged p.mgr eid cb managed (managed.live eid cb present)

  others_stay :
      (r : ℕ)
      → lookup r (erase eid kept.run_queue) ≡ (if eid == r then none else lookup r p.mgr.run_queue)
  others_stay r =
      ground (arith, lookup-erase r eid kept.run_queue, lookup-put r eid cb p.mgr.run_queue)

  -- A round of pmdEntryPointProxy for a thread that is forced, and waits with no event, where
  -- nothing comes in time, in a manager as it always is: the loop ends, the thread is out of the
  -- run queue, and the manager is as it always is.
  pub proxy_round-ends :
      cb.queue ≡ []
      → in_status waiting cb ≡ true
      → cb.is_forced ≡ true
      → (q : Proxy) × (proxy_round exec max_pool_size eid none p ≡ returns (true, q))
        × IsManaged q.mgr
        × ((r : ℕ)
            → lookup r q.mgr.run_queue ≡ (if eid == r then none else lookup r p.mgr.run_queue))
  unfolding proxy_round on_event act
  proxy_round-ends queue s forced =
      let gone =
        return_edu-destroys kept eid cb kept-IsManaged (looked_up p.mgr eid cb) max_pool_size s in
      (
        record {
          event = release_space true p.event;
          is_forced = true;
          mgr = record kept {
            run_queue = erase eid kept.run_queue;
            tid2eid_map = erase_value eid kept.tid2eid_map;
          };
          normal = p.normal;
        },
        rw (proxy_round, found eid p cb present, nothing_comes queue s)
            (if_true cb.is_forced forced _ _ ∙ rw (written eid p cb present cb, gone) refl),
        other_tids _ _ (erase_run-IsManaged kept eid kept-IsManaged),
        others_stay,
      )

-- Rounds in which nothing comes.
unfoldable pub nothing : ℕ → List (Option Event)
nothing zero = []
nothing (suc n) = none ∷ nothing n

-- A thread that waits, and is not forced, waits for ever.
pub waits_on :
    (exec : EntryPoint) (max_pool_size eid n : ℕ) (p : Proxy) (cb : EduCb)
    → IsManaged p.mgr
    → lookup eid p.mgr.run_queue ≡ some cb
    → cb.queue ≡ []
    → in_status waiting cb ≡ true
    → cb.is_forced ≡ false
    → proxy_loop exec max_pool_size eid (nothing n) p ≡ starved
unfolding proxy_loop nothing
waits_on exec max_pool_size eid zero p cb h present queue s calm = refl
waits_on exec max_pool_size eid (suc n) p cb h present queue s calm =
    rw (idles exec max_pool_size eid p cb h present queue s calm) (
      waits_on exec max_pool_size eid n (record p { mgr = set_run eid cb p.mgr }) cb
        (set_run-IsManaged p.mgr eid cb h (h.live eid cb present)) (looked_up p.mgr eid cb) queue s
        calm)
