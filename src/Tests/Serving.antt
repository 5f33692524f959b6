-- ===== src/Tests/Serving.antt =====
-- The loop of a thread, and the listener's, at concrete managers.
use edbc.Base.{
  ℕ, ◌==◌, ◌≡◌, refl, true, false, none, some, [], ◌∷◌, List, arith, sym, ◌∙◌, inl, inr, Bool-cases,
}
use edbc.Base.Outcome.{returns, starved}
use edbc.Base.Outcome.Rc.{edb_ok}
use edbc.Base.Assoc.{lookup, put}
use edbc.Oss.Socket.{ready, failed}
use edbc.Pmd.Edu.{agent, EduStatus, creating, waiting, EduCb, Event}
use edbc.Pmd.Manager.{EduMgr, new_mgr, set_run}
use edbc.Pmd.Start.{resume_event}
use edbc.Pmd.Invariant.{IsManaged, new_mgr-IsManaged, set_run-IsManaged}
use edbc.Pmd.Life.{Reach}
use edbc.Pmd.Proxy.{EntryPoint, fresh_proxy, proxy_loop}
use edbc.Pmd.Waits.{nothing}
use edbc.Pmd.Proxied.{proxy_loop-stays}
use edbc.Pmd.Shutdown.{destroy_all}
use edbc.Pmd.Drain.{Threads, Resting, thread_rounds}
use edbc.Pmd.Drained.{destroy_all-ends}
use edbc.Pmd.Listener.{Round, Listening}

abbrev thread_in : EduStatus → List Event → EduCb
thread_in s q = record {
  type_ = agent;
  status = s;
  id = 1;
  is_forced = false;
  is_disconnected = false;
  queue = q;
}

abbrev manager : EduCb → EduMgr
manager cb = set_run 1 cb new_mgr

abbrev new_thread : EduCb
new_thread = thread_in creating (resume_event 9 ∷ [])

new_thread-IsManaged : IsManaged (manager new_thread)
new_thread-IsManaged =
    set_run-IsManaged new_mgr 1 new_thread new_mgr-IsManaged
      (record { own_id = refl; alive = omega arith })

there : (cb : EduCb) → lookup 1 (manager cb).run_queue ≡ some cb
unfolding lookup put
there cb = refl

abbrev served : EduCb
served = thread_in waiting []

served-IsManaged : IsManaged (manager served)
served-IsManaged =
    set_run-IsManaged new_mgr 1 served new_mgr-IsManaged
      (record { own_id = refl; alive = omega arith })

-- A function that serves its connection, and leaves the manager with the thread waiting.
abbrev serve : EntryPoint
serve type arg m normal = returns (edb_ok, manager served, normal)

proxy_loop-stays_example :
    proxy_loop serve 20 1 (none ∷ nothing 3) (fresh_proxy (manager new_thread) true) ≡ starved
unfolding put
proxy_loop-stays_example =
    proxy_loop-stays serve 20 1 (fresh_proxy (manager new_thread) true) new_thread
      new_thread-IsManaged (there new_thread) none (resume_event 9) [] edb_ok (manager served) true
      served 3 refl refl refl refl refl served-IsManaged (there served) refl refl refl refl refl
      refl

served-Threads : Threads (1 ∷ []) (manager served)
unfolding lookup put
served-Threads = record {
  present = ((served, refl), refl, tt);
  no_others = λ q no. ground (arith, no);
}

served-Resting : Resting (manager served)
unfolding lookup put
served-Resting q cb e = elim (Bool-cases (1 == q)) [
  | inl t ↦ let same : some served ≡ some cb = sym (rw t refl) ∙ e in (cc, cc)
  | inr t ↦ let no : none ≡ some cb = sym (rw t refl) ∙ e in cc
]

destroy_all-ends_example :
    (n : EduMgr) × (destroy_all (thread_rounds serve 20 (1 ∷ []) ∷ []) (manager served)
      ≡ returns (edb_ok, n))
    × IsManaged n
    × (n.run_queue ≡ [])
destroy_all-ends_example =
    destroy_all-ends serve 20 (1 ∷ []) [] (manager served) served-IsManaged refl served-Threads
      served-Resting

abbrev connection : ℕ → Round
connection fd = record {
  down = false;
  accepted = some fd;
  down_after = false;
  host = record { allocates = true; spawns = true };
}

-- The listener's variable stands at 4096.
abbrev listening : Listening
listening = record {
  fd_at = 4096;
  fd = 0;
  rc = edb_ok;
  sock = record {
    init = true;
    timeout = 0;
    alive = true;
    polls = ready ∷ failed 4 ∷ ready ∷ [];
    arrivals = [];
    acceptances = [];
    sent = [];
  };
  mgr = new_mgr;
  slave_eid = 0;
}
