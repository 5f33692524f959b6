-- ===== src/Tests/Threads.antt =====
-- The theorems on threads at a manager with one agent.
use edbc.Base.{ℕ, ◌≡◌, refl, true, false, none, some, [], ◌∷◌}
use edbc.Base.Outcome.{returns}
use edbc.Base.Outcome.Rc.{edb_ok, edb_edu_invalid_status}
use edbc.Base.Latch.{w_lock, w_unlock}
use edbc.Base.Assoc.{lookup, put}
use edbc.Pmd.Edu.{agent, tcplistener, EduStatus, creating, running, EduCb, has_entry_point}
use edbc.Pmd.Manager.{EduMgr, new_mgr, activate_edu, activate_body, wait_edu, destroy_edu}
use edbc.Pmd.Start.{Host, start_edu, create_edu, register_body, spawn_body, idle_edu, resume_event}
use edbc.Pmd.Service.{return_edu}
use edbc.Pmd.Invariant.{IsManaged}
use edbc.Pmd.Life.{Reach, Reach-IsManaged, return_edu-unpooled}
use edbc.Pmd.Life.Step.{start, activate}
use edbc.Pmd.Life.Reach.{fresh, next}
use edbc.Pmd.Cycle.{life_cycle}

abbrev healthy : Host
healthy = record { allocates = true; spawns = true }

abbrev agent_one : EduStatus → EduCb
agent_one s = record {
  type_ = agent;
  status = s;
  id = 1;
  is_forced = false;
  is_disconnected = false;
  queue = resume_event 9 ∷ [];
}

abbrev with_agent : EduStatus → EduMgr
with_agent s = record new_mgr { run_queue = (1, agent_one s) ∷ []; global_edu_id = 2 }

started : start_edu healthy agent 9 0 new_mgr ≡ returns ((edb_ok, 1), with_agent creating)
unfolding start_edu create_edu register_body spawn_body idle_edu lookup put has_entry_point w_lock
    w_unlock
started = refl

activated : activate_edu 1 (with_agent creating) ≡ returns (edb_ok, with_agent running)
unfolding activate_edu activate_body lookup put w_lock w_unlock
activated = refl

reach_created : Reach (with_agent creating)
reach_created = next fresh (start healthy agent 9 0 (edb_ok, 1) started)

reach_running : Reach (with_agent running)
reach_running = next reach_created (activate 1 edb_ok activated)

there : (s : EduStatus) → lookup 1 (with_agent s).run_queue ≡ some (agent_one s)
unfolding lookup
there s = refl

Reach-IsManaged_example : IsManaged (with_agent running)
Reach-IsManaged_example = Reach-IsManaged {m = with_agent running} reach_running

return_edu-unpooled_example :
    return_edu 20 1 false true (with_agent running)
    ≡ returns ((edb_edu_invalid_status, some false), with_agent running)
return_edu-unpooled_example =
    return_edu-unpooled (with_agent running) 20 1 (agent_one running) reach_running (there running)
      refl refl refl

none_two : lookup 2 (with_agent running).run_queue ≡ none
unfolding lookup
none_two = refl

known : has_entry_point tcplistener ≡ true
unfolding has_entry_point
known = refl

life_cycle_example :
    (m1 : EduMgr) × (m2 : EduMgr) × (m3 : EduMgr) × (m4 : EduMgr) × (start_edu healthy tcplistener 5
        0
        (with_agent running)
      ≡ returns ((edb_ok, 2), m1))
    × (activate_edu 2 m1 ≡ returns (edb_ok, m2))
    × (destroy_edu 2 m2 ≡ returns (edb_edu_invalid_status, m2))
    × (wait_edu 2 m2 ≡ returns (edb_ok, m3))
    × (destroy_edu 2 m3 ≡ returns (edb_ok, m4))
    × ((q : ℕ) → lookup q m4.run_queue ≡ lookup q (with_agent running).run_queue)
life_cycle_example =
    life_cycle (with_agent running) reach_running healthy tcplistener 5 0 refl known refl refl
      none_two
