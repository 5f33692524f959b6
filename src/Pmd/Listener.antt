-- ===== src/Pmd/Listener.antt =====
-- pmdTCPListenerEntryPoint (pmd/pmdListener.cpp): connections are accepted, and each is given to
-- an agent. What the other threads and the system do to each round of the loops is a list.
use edbc.Base.{
  ℕ, ◌+◌, ◌-◌, ◌*◌, Bool, not, ◌&&◌, ◌||◌, Option, List, [], ◌∷◌, ltb, leb, ◌==◌, if◌then◌else◌,
}
use edbc.Base.Outcome.{Outcome, returns, fault, starved, ◌>>=◌, Rc, is_ok}
use edbc.Base.Outcome.Rc.{edb_ok, os_error}
use edbc.Base.Bytes.{Bytes}
use edbc.Oss.Socket.{Socket, accept, init_socket, bind_listen}
use edbc.Pmd.Edu.{agent}
use edbc.Pmd.Manager.{EduMgr, activate_edu, wait_edu}
use edbc.Pmd.Start.{Host, start_edu}
use edbc.Pmd.Wire.{is_timeout}

-- MAX_RETRY
abbrev pub max_retry : ℕ
max_retry = 5

-- The port, of the digits of the service's name; the other characters are passed over. Above an
-- int it is undefined.
unfoldable pub resolve_port : Bytes → ℕ → Outcome ℕ
resolve_port [] port = returns port
resolve_port (c ∷ name) port =
    let next = resolve_port name (port * 10 + (c - 48)) in
    let rest = resolve_port name port in
    if leb 48 c && leb c 57
    then if ltb (port * 10 + (c - 48)) 2147483648 then next else fault
    else rest

-- A round of the inner loop: edb_is_shutdown() at its test and behind accept, what accept(2)
-- gives, and what a new thread gets.
pub record Round : Type 0 where
  pub down : Bool
  pub accepted : Option ℕ
  pub down_after : Bool
  pub host : Host

-- How the inner loop is left: by its test, by `break`, or to `done:`.
pub data Exit : Type 0 where
  ended broken finished : Exit

-- The variables of the inner loop. `fd` is a variable of its body, and stands at the same address,
-- `fd_at`, in each round.
pub record Listening : Type 0 where
  pub fd_at : ℕ
  pub fd : ℕ
  pub rc : Rc
  pub sock : Socket
  pub mgr : EduMgr
  pub slave_eid : ℕ

-- The body behind accept: a connection is given to an agent, with the address of `fd` in the
-- event. Where no agent can be started, the descriptor is closed.
unfoldable pub on_accept :
    (Listening → Outcome (Exit × Listening)) → Round → Listening → Rc → Outcome (Exit × Listening)
on_accept again r v rc =
    let start = (do
      ((rc', eid), m) ← start_edu r.host agent v.fd_at v.slave_eid v.mgr
      again (record v { rc = rc'; mgr = m; slave_eid = eid })) in
    let next = again (record v { rc = edb_ok }) in
    if is_timeout rc
    then next
    else if is_ok rc
    then start
    else if r.down_after
    then returns (finished, record v { rc = edb_ok })
    else returns (broken, record v { rc = rc })

-- The inner loop.
unfoldable pub accept_loop : List Round → Listening → Outcome (Exit × Listening)
accept_loop [] v = starved
accept_loop (r ∷ rs) v =
    let go = (do
      ((rc, fd), s) ← accept v.sock v.fd r.accepted
      on_accept (accept_loop rs) r (record v { sock = s; fd = fd }) rc) in
    if r.down then returns (ended, v) else go

-- A round of the outer loop: edb_is_shutdown() at its test, the new socket, what socket, bind and
-- listen give, and the rounds of the inner loop, with its variable `fd` at first.
pub record Attempt : Type 0 where
  pub down : Bool
  pub sock : Socket
  pub made : Bool
  pub bound : ℕ
  pub listening : ℕ
  pub fd_at : ℕ
  pub fd : ℕ
  pub rounds : List Round

-- The part of a round behind the inner loop.
unfoldable pub after_rounds :
    (Rc → ℕ → EduMgr → Outcome (Rc × EduMgr)) → ℕ → Exit × Listening → Outcome (Rc × EduMgr)
after_rounds again eid (finished, v) = returns (v.rc, v.mgr)
after_rounds again eid (_, v) = do
  (rc, m) ← wait_edu eid v.mgr
  if is_ok rc then again rc v.slave_eid m else returns (rc, m)

-- A round of the outer loop behind its test.
unfoldable pub attempt :
    (Rc → ℕ → EduMgr → Outcome (Rc × EduMgr))
    → Bytes
    → ℕ
    → Attempt
    → ℕ
    → EduMgr
    → Outcome (Rc × EduMgr)
attempt again svc_name eid a slave m = do
  _ ← resolve_port svc_name 0
  let (rc, s) = init_socket a.made a.sock
  let (code, s') = bind_listen a.bound a.listening s
  if not (is_ok rc)
      then returns (rc, m)
      else if not (code == 0)
      then returns (os_error code, m)
      else (do
        (rc', m') ← activate_edu eid m
        if is_ok rc'
            then accept_loop a.rounds (record {
              fd_at = a.fd_at;
              fd = a.fd;
              rc = rc';
              sock = s';
              mgr = m';
              slave_eid = slave;
            })
              >>= after_rounds again eid
            else returns (rc', m'))

-- The outer loop, and pmdTCPListenerEntryPoint.
unfoldable pub listen_loop : Bytes → ℕ → ℕ → List Attempt → Rc → ℕ → EduMgr → Outcome (Rc × EduMgr)
listen_loop svc_name eid retry [] rc slave m =
    if ltb retry max_retry then starved else returns (rc, m)
listen_loop svc_name eid retry (a ∷ attempts) rc slave m =
    let go = attempt (listen_loop svc_name eid (retry + 1) attempts) svc_name eid a slave m in
    if not (ltb retry max_retry) || a.down then returns (rc, m) else go

unfoldable pub pmd_tcp_listener_entry_point :
    Bytes → ℕ → List Attempt → EduMgr → Outcome (Rc × EduMgr)
pmd_tcp_listener_entry_point svc_name eid attempts = listen_loop svc_name eid 0 attempts edb_ok 0
