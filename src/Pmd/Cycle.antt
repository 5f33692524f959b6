-- ===== src/Pmd/Cycle.antt =====
-- What becomes of a thread from startEdu to destroyEduInternal, and of those that are forced
-- (pmd/pmdEduMgr.cpp).
use edbc.Base.{
  ℕ, ◌+◌, ◌%◌, ◌^◌, ◌≡◌, refl, sym, ap, ◌∙◌, inl, inr, true, false, not, none, some, ◌==◌,
  if◌then◌else◌, Bool-cases, ==_refl, arith,
}
use edbc.Base.Outcome.{returns, ◌>>=◌}
use edbc.Base.Outcome.Rc.{edb_ok, edb_edu_invalid_status}
use edbc.Base.Latch.{unlocked}
use edbc.Base.Assoc.{lookup, put, erase, lookup-put, lookup-erase, lookup-map_where}
use edbc.Pmd.Edu.{
  EduType, running, waiting, EduCb, new_edu, set_id, set_status, push_event, force, has_entry_point,
}
use edbc.Pmd.Manager.{EduMgr, set_run, activate_edu, wait_edu, destroy_edu}
use edbc.Pmd.Start.{
  Host, resume_event, register_body, spawn_body, after_register, create_edu, start_edu,
}
use edbc.Pmd.Service.{EduPrivilege, concerns, force_edus, force_edus_body}
use edbc.Pmd.Invariant.{IsManaged, under_w-run, no_idle-lookup}
use edbc.Pmd.Steps.{if_false, start_edu-create}
use edbc.Pmd.Life.{Reach, Reach-IsManaged}
use edbc.Pmd.Own.{activate_new, wait_running, destroy_waiting, destroy_running}
use edbc.Pmd.Life.Step.{start, activate, wait}
use edbc.Pmd.Life.Reach.{next}

-- A thread under the id that it is put in with.
pub looked_up :
    (m : EduMgr) (eid : ℕ) (cb : EduCb) → lookup eid (set_run eid cb m).run_queue ≡ some cb
looked_up m eid cb = lookup-put eid eid cb m.run_queue ∙ rw (==_refl eid)

module _ (m : EduMgr) (reach : Reach m) (host : Host) (t : EduType) (arg eid0 : ℕ)
    (up : m.stop_service ≡ false) (known : has_entry_point t ≡ true)
    (memory : host.allocates ≡ true) (thread : host.spawns ≡ true)
    (new : lookup m.global_edu_id m.run_queue ≡ none) where
  h : IsManaged m
  h = Reach-IsManaged reach

  abbrev pub started_cb : EduCb
  started_cb = push_event (resume_event arg) (set_id m.global_edu_id (new_edu t))

  abbrev pub entered : EduMgr
  entered = record m {
    run_queue = put m.global_edu_id (set_id m.global_edu_id (new_edu t)) m.run_queue;
    global_edu_id = (m.global_edu_id + 1) % 2 ^ 64;
  }

  abbrev pub started : EduMgr
  started =
      set_run m.global_edu_id (push_event (resume_event arg) (set_id m.global_edu_id (new_edu t)))
        entered

  registered : register_body t m ≡ ((edb_ok, m.global_edu_id), entered)
  unfolding register_body
  registered = rw (register_body, new, no_idle-lookup m m.global_edu_id h)

  spawned :
      spawn_body host arg m.global_edu_id (record entered { latch = unlocked })
      ≡ (edb_ok, record started { latch = unlocked })
  unfolding spawn_body
  spawned =
      rw (spawn_body, thread, looked_up m m.global_edu_id (set_id m.global_edu_id (new_edu t)))

  pub start_new : start_edu host t arg eid0 m ≡ returns ((edb_ok, m.global_edu_id), started)
  unfolding create_edu
  start_new =
      start_edu-create m h host t arg eid0 up
      ∙ if_false m.stop_service up _ _
      ∙ if_false (not (has_entry_point t)) (rw known) _ _
      ∙ if_false (not host.allocates) (rw memory) _ _
      ∙ ap (λ o. o >>= after_register host arg eid0) (under_w-run m (register_body t) h.free)
      ∙ ap (λ r. after_register host arg eid0 (r.0, record (r.1) { latch = unlocked })) registered
      ∙ ap (λ s. returns ((s.0, m.global_edu_id), s.1)) spawned
      ∙ ap (λ l. returns ((edb_ok, m.global_edu_id), record started { latch = l })) (sym h.free)

  -- An id other than the new one, or the new one, which was not in the run queue.
  untouched :
      (q : ℕ)
      → lookup q (
          erase m.global_edu_id (
            put m.global_edu_id
              (set_status waiting started_cb)
              (put m.global_edu_id (set_status running started_cb) started.run_queue)))
        ≡ lookup q m.run_queue
  untouched q = elim (Bool-cases (m.global_edu_id == q)) [
    | inl e ↦
        let at : m.global_edu_id ≡ q = ground arith in
        lookup-erase q m.global_edu_id _ ∙ rw e (sym new ∙ ap (λ k. lookup k m.run_queue) at)
    | inr e ↦ rw (
      lookup-erase q m.global_edu_id (
          put m.global_edu_id (set_status waiting started_cb)
            (put m.global_edu_id (set_status running started_cb) started.run_queue)),
      lookup-put q m.global_edu_id (set_status waiting started_cb)
          (put m.global_edu_id (set_status running started_cb) started.run_queue),
      lookup-put q m.global_edu_id (set_status running started_cb) started.run_queue,
      lookup-put q m.global_edu_id started_cb entered.run_queue,
      lookup-put q m.global_edu_id (set_id m.global_edu_id (new_edu t)) m.run_queue,
      e,
    )
  ]

  -- At every point of a manager's life that still serves, for a type with an entry point, a host
  -- that gives memory and thread, and an id that is not in use: startEdu, activateEdu, waitEdu and
  -- destroyEduInternal all return EDB_OK for the new thread, the destruction while it runs returns
  -- EDB_EDU_INVALID_STATUS and changes nothing, and in the end each id has the thread that it had
  -- before.
  pub life_cycle :
      (m1 : EduMgr) × (m2 : EduMgr) × (m3 : EduMgr) × (m4 : EduMgr) × (start_edu host t arg eid0 m
        ≡ returns ((edb_ok, m.global_edu_id), m1))
      × (activate_edu m.global_edu_id m1 ≡ returns (edb_ok, m2))
      × (destroy_edu m.global_edu_id m2 ≡ returns (edb_edu_invalid_status, m2))
      × (wait_edu m.global_edu_id m2 ≡ returns (edb_ok, m3))
      × (destroy_edu m.global_edu_id m3 ≡ returns (edb_ok, m4))
      × ((q : ℕ) → lookup q m4.run_queue ≡ lookup q m.run_queue)
  life_cycle =
      let eid = m.global_edu_id in
      let cb : EduCb = started_cb in
      let reach1 = next reach (start host t arg eid0 _ start_new) in
      let h1 = Reach-IsManaged reach1 in
      let activated = activate_new started eid cb h1 (looked_up entered eid cb) refl in
      let m2 = set_run eid (set_status running cb) started in
      let h2 = Reach-IsManaged (next reach1 (activate eid _ activated)) in
      let there = looked_up started eid (set_status running cb) in
      let waits = wait_running m2 eid (set_status running cb) h2 there refl in
      let h3 = Reach-IsManaged (next (next reach1 (activate eid _ activated)) (wait eid _ waits)) in
      let m3 = set_run eid (set_status waiting cb) m2 in
      (
        started,
        m2,
        m3,
        _,
        start_new,
        activated,
        destroy_running m2 eid (set_status running cb) h2 there refl,
        waits,
        destroy_waiting m3 eid (set_status waiting cb) h3 (looked_up m2 eid (set_status waiting cb))
            refl,
        untouched,
      )

-- At every point of a manager's life, forceEdusInternal returns EDB_OK, and a thread of the run
-- queue is forced where the privilege concerns its id, and is as before where not.
pub force_edus-forces :
    (m : EduMgr) (prop : EduPrivilege) (q : ℕ) (cb : EduCb)
    → Reach m
    → lookup q m.run_queue ≡ some cb
    → (n : EduMgr) × (force_edus prop m ≡ returns (edb_ok, n))
      × (lookup q n.run_queue ≡ some (if concerns prop m q then force cb else cb))
unfolding force_edus force_edus_body
force_edus-forces m prop q cb reach f =
    let h = Reach-IsManaged reach in
    (
      _,
      under_w-run m (force_edus_body prop) h.free,
      lookup-map_where q (concerns prop m) force m.run_queue ∙ rw f,
    )
