-- ===== src/Pmd/Proxied.antt =====
-- What a round of pmdEntryPointProxy (pmd/pmdEdu.cpp) does to its own thread.
use edbc.Base.{
  ℕ, ◌+◌, ◌≡◌, refl, ap, ◌∙◌, Bool, true, false, Option, some, List, [], ◌∷◌, ltb, length, arith,
}
use edbc.Base.Outcome.{returns, starved, Rc}
use edbc.Base.Outcome.Rc.{edb_ok}
use edbc.Base.Assoc.{lookup}
use edbc.Pmd.Edu.{
  agent, EventType, Event, resume, EduStatus, EduCb, creating, running, waiting, idle, destroy,
  status_unknown, set_status, took, woken, has_entry_point, wait_event,
}
use edbc.Pmd.Manager.{EduMgr, set_run, in_status, is_poolable, wait_edu}
use edbc.Pmd.Invariant.{IsManaged, set_run-IsManaged}
use edbc.Pmd.Life.{return_edu-refused}
use edbc.Pmd.Own.{wait_running, wait_waiting}
use edbc.Pmd.Cycle.{looked_up}
use edbc.Pmd.Waits.{found, written, nothing, waits_on}
use edbc.Pmd.Proxy.{
  Proxy, EntryPoint, is_resume, release_space, run_entry, act, on_event, proxy_round, proxy_loop,
}

took_resume : (cb : EduCb) (t : EventType) → t ≡ resume → took cb t ≡ set_status running cb
took_resume cb t h = rw h refl

woken_running :
    (cb : EduCb) (s : EduStatus) (es : List Event)
    → set_status running (record (woken cb s) { queue = es })
      ≡ record cb { status = running; queue = es }
woken_running cb creating es = refl
woken_running cb running es = refl
woken_running cb waiting es = refl
woken_running cb idle es = refl
woken_running cb destroy es = refl
woken_running cb status_unknown es = refl

-- waitEvent takes a RESUME that stands first.
takes_resume :
    (cb : EduCb) (arrival : Option Event) (e : Event) (es : List Event)
    → cb.queue ≡ e ∷ es
    → e.type_ ≡ resume
    → wait_event cb true arrival ≡ returns (some e, record cb { status = running; queue = es })
unfolding wait_event
takes_resume cb arrival e es queue is =
    rw (wait_event, queue)
      (ap (λ c. returns (some e, c)) (took_resume _ e.type_ is ∙ woken_running cb cb.status es))

-- The manager that an entry point is given: its event is taken out, and the thread waits.
abbrev pub at_entry : ℕ → EduCb → List Event → EduMgr → EduMgr
at_entry eid cb es m =
    set_run eid (record cb { status = waiting; queue = es })
      (set_run eid (record cb { status = running; queue = es }) m)

module _ (exec : EntryPoint) (max_pool_size eid : ℕ) (p : Proxy) (cb : EduCb)
    (managed : IsManaged p.mgr) (present : lookup eid p.mgr.run_queue ≡ some cb) where
  -- The control block with the event taken out, and the manager with it.
  abbrev taken : List Event → EduCb
  taken es = record cb { status = running; queue = es }

  abbrev with_taken : List Event → EduMgr
  with_taken es = set_run eid (taken es) p.mgr

  taken-IsManaged : (es : List Event) → IsManaged (with_taken es)
  taken-IsManaged es =
      set_run-IsManaged p.mgr eid (taken es) managed
        (record { own_id = (managed.live eid cb present).own_id; alive = omega arith })

  abbrev given : List Event → EduMgr
  given es = at_entry eid cb es p.mgr

  waits : (es : List Event) → wait_edu eid (with_taken es) ≡ returns (edb_ok, given es)
  waits es =
      wait_running (with_taken es) eid (taken es) (taken-IsManaged es)
        (looked_up p.mgr eid (taken es)) refl

  module _ (e : Event) (es : List Event) (rc : Rc) (m : EduMgr) (normal : Bool) (cb' : EduCb)
      (is : e.type_ ≡ resume)
      (ran : exec agent e.data_ (given es) p.normal ≡ returns (rc, m, normal))
      (managed' : IsManaged m) (present' : lookup eid m.run_queue ≡ some cb')
      (type' : cb'.type_ ≡ agent) (waiting' : in_status waiting cb' ≡ true)
      (serves : m.is_destroyed ≡ false)
      (room : ltb max_pool_size (length m.run_queue + length m.idle_queue) ≡ false) where
    abbrev after : Proxy
    after = record { event = release_space false e; is_forced = false; mgr = m; normal = normal }

    entered :
        run_entry exec max_pool_size eid agent e.data_ (with_taken es) p.normal
        ≡ returns (m, normal)
    unfolding run_entry has_entry_point
    entered = rw (waits es, ran, wait_waiting m eid cb' managed' present' waiting') (ground arith)

    acts :
        act exec max_pool_size eid agent false e (record p { mgr = with_taken es })
        ≡ returns (false, after)
    unfolding act
    acts =
        let poolable : is_poolable cb'.type_ ≡ true = rw type' refl in
        let back =
          return_edu-refused m max_pool_size eid cb' managed' present' poolable serves room in
        let resumed : is_resume e.type_ ≡ true = ap is_resume is in rw (resumed, entered, back) refl

    -- The first event, a RESUME, of an agent that is not forced: its function is run, and the
    -- thread is given back and stays.
    pub resumes :
        (arrival : Option Event)
        → p.is_forced ≡ false
        → cb.type_ ≡ agent
        → cb.queue ≡ e ∷ es
        → proxy_round exec max_pool_size eid arrival p ≡ returns (false, after)
    unfolding proxy_round on_event
    resumes arrival free_p type queue =
        rw (proxy_round, found eid p cb present, takes_resume cb arrival e es queue is)
          (ap
              (λ (n : EduMgr).
                act exec max_pool_size eid cb.type_ p.is_forced e (record p { mgr = n }))
              (written eid p cb present (taken es))
            ∙ (λ i.
                act exec max_pool_size eid (type i) (free_p i) e (record p { mgr = with_taken es }))
            ∙ acts)

module _ (exec : EntryPoint) (max_pool_size eid : ℕ) (p : Proxy) (cb : EduCb)
    (managed : IsManaged p.mgr) (present : lookup eid p.mgr.run_queue ≡ some cb) where
  -- The thread of an agent outlives its connection: where a RESUME event comes first, the agent's
  -- function returns with a manager as it always is, and the thread in its run queue, waiting, not
  -- forced and without events, the manager is not being destroyed, and there is room in the pool,
  -- the loop of pmdEntryPointProxy has not ended after any number of rounds in which nothing
  -- comes.
  pub proxy_loop-stays :
      (arrival : Option Event) (e : Event) (es : List Event) (rc : Rc) (m : EduMgr) (normal : Bool)
      (cb' : EduCb) (n : ℕ)
      → p.is_forced ≡ false
      → cb.type_ ≡ agent
      → cb.queue ≡ e ∷ es
      → e.type_ ≡ resume
      → exec agent e.data_ (at_entry eid cb es p.mgr) p.normal ≡ returns (rc, m, normal)
      → IsManaged m
      → lookup eid m.run_queue ≡ some cb'
      → cb'.type_ ≡ agent
      → in_status waiting cb' ≡ true
      → cb'.queue ≡ []
      → cb'.is_forced ≡ false
      → m.is_destroyed ≡ false
      → ltb max_pool_size (length m.run_queue + length m.idle_queue) ≡ false
      → proxy_loop exec max_pool_size eid (arrival ∷ nothing n) p ≡ starved
  unfolding proxy_loop
  proxy_loop-stays arrival e es rc m normal cb' n free_p type queue is ran managed' present' type'
        waiting' queue' calm serves room =
      rw
        (resumes exec max_pool_size eid p cb managed present e es rc m normal cb' is ran managed'
          present' type' waiting' serves room arrival free_p type queue)
        (waits_on exec max_pool_size eid n _ cb' managed' present' queue' waiting' calm)
