-- ===== src/Pmd/Accepting.antt =====
-- The inner loop of pmdTCPListenerEntryPoint (pmd/pmdListener.cpp) on a connection.
use edbc.Base.{ℕ, ◌+◌, ◌%◌, ◌^◌, ◌≡◌, refl, ap, ◌∙◌, true, false, some, none, List, ◌∷◌}
use edbc.Base.Outcome.{returns, ◌>>=◌, Rc}
use edbc.Base.Outcome.Rc.{edb_ok, edb_timeout}
use edbc.Base.Assoc.{lookup, put}
use edbc.Oss.Socket.{Poll, Socket, accept}
use edbc.Oss.Recv.{settle, wait_ready-settle}
use edbc.Pmd.Edu.{agent, EduCb, new_edu, set_id, push_event, has_entry_point}
use edbc.Pmd.Manager.{EduMgr, set_run}
use edbc.Pmd.Start.{resume_event}
use edbc.Pmd.Life.{Reach, Step}
use edbc.Pmd.Steps.{if_false}
use edbc.Pmd.Cycle.{start_new}
use edbc.Pmd.Wire.{is_timeout}
use edbc.Pmd.Listener.{Round, Listening, on_accept, accept_loop}

-- The manager with a new agent.
abbrev pub with_new : EduMgr → EduMgr
with_new m = record m {
  run_queue = put m.global_edu_id (set_id m.global_edu_id (new_edu agent)) m.run_queue;
  global_edu_id = (m.global_edu_id + 1) % 2 ^ 64;
}

-- The agent is resumed with this in its event.
abbrev pub resumed : ℕ → ℕ → EduCb
resumed eid arg = push_event (resume_event arg) (set_id eid (new_edu agent))

-- The manager with a new agent that is resumed.
abbrev pub with_resumed : ℕ → EduMgr → EduMgr
with_resumed arg m = set_run m.global_edu_id (resumed m.global_edu_id arg) (with_new m)

accepts :
    (s : Socket) (ps : List Poll) (old fd : ℕ)
    → settle s.polls ≡ some ps
    → accept s old (some fd) ≡ returns ((edb_ok, fd), record s { polls = ps })
unfolding accept
accepts s ps old fd calm = rw (wait_ready-settle edb_timeout s.polls ps calm) refl

-- The variables after a round in which this connection is given to a new agent.
abbrev pub after_round : List Poll → ℕ → Listening → Listening
after_round ps fd v = record v {
  fd = fd;
  rc = edb_ok;
  sock = record (v.sock) { polls = ps };
  mgr = with_resumed v.fd_at v.mgr;
  slave_eid = v.mgr.global_edu_id;
}

-- A round in which a connection comes, and an agent can be started.
pub record Connects (r : Round) (fd : ℕ) : Type 0 where
  pub up : r.down ≡ false
  pub comes : r.accepted ≡ some fd
  pub memory : r.host.allocates ≡ true
  pub thread : r.host.spawns ≡ true

-- A round of the inner loop with a connection.
pub accept_loop-starts :
    (r : Round) (rs : List Round) (v : Listening) (ps : List Poll) (fd : ℕ)
    → Reach v.mgr
    → v.mgr.stop_service ≡ false
    → lookup v.mgr.global_edu_id v.mgr.run_queue ≡ none
    → settle v.sock.polls ≡ some ps
    → Connects r fd
    → (accept_loop (r ∷ rs) v ≡ accept_loop rs (after_round ps fd v))
      × Reach (with_resumed v.fd_at v.mgr)
unfolding accept_loop on_accept is_timeout has_entry_point
accept_loop-starts r rs v ps fd reach up new calm c =
    let entered = λ (x : (Rc × ℕ) × Socket).
      on_accept (accept_loop rs) r (record v { sock = x.1; fd = x.0.1 }) (x.0.0) in
    let run =
      start_new v.mgr reach r.host agent v.fd_at v.slave_eid up refl c.memory c.thread new in
    (
      if_false r.down c.up _ _
          ∙ ap (λ o. accept v.sock v.fd o >>= entered) c.comes
          ∙ ap (λ o. o >>= entered) (accepts v.sock ps v.fd fd calm)
          ∙ rw run refl,
      Reach.next reach (Step.start r.host agent v.fd_at v.slave_eid _ run),
    )
