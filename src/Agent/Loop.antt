-- ===== src/Agent/Loop.antt =====
-- pmdAgentEntryPoint (pmd/pmdAgent.cpp): the loop that receives a request, has it processed, and
-- sends the reply.
use edbc.Base.{ℕ, zero, suc, ◌+◌, ◌-◌, ◌^◌, Bool, true, not, List, ltb, leb, if◌then◌else◌}
use edbc.Base.Outcome.{Outcome, returns, fault, starved, ◌>>=◌, Rc, is_ok}
use edbc.Base.Outcome.Rc.{edb_ok, edb_oom, edb_invalid_argument}
use edbc.Base.Bytes.{Bytes}
use edbc.Base.Memory.{load32, store32, store8, store_bytes, read_bytes}
use edbc.Base.Json.{JsonLib}
use edbc.Msg.Buffer.{Buffer, Allocator, slt, is_negative}
use edbc.Oss.Socket.{Socket, close}
use edbc.Pmd.Manager.{EduMgr, activate_edu, wait_edu}
use edbc.Pmd.Wire.{pmd_recv, pmd_send}
use edbc.Rtn.Methods.{Rtn}
use edbc.Agent.Request.{Context, oss_round_upto_multiple_x, process_request}

abbrev pub edb_page_size : ℕ
edb_page_size = 4096

abbrev pub agent_receive_buffer_size : ℕ
agent_receive_buffer_size = 4096

-- The variables of the function, with the manager and the database that it reaches. `forced` is
-- what isForced() will give.
pub record Agent : Type 0 where
  pub recv_buf : Buffer
  pub recv_size : ℕ
  pub send_buf : Buffer
  pub send_size : ℕ
  pub sock : Socket
  pub forced : List Bool
  pub mgr : EduMgr
  pub rtn : Rtn

-- The variables of a thread whose sizes are those of the buffers.
abbrev pub agent_with : Buffer → Buffer → Socket → List Bool → EduMgr → Rtn → Agent
agent_with rb sb sock forced mgr rtn = record {
  recv_buf = rb;
  recv_size = rb.capacity;
  send_buf = sb;
  send_size = sb.capacity;
  sock = sock;
  forced = forced;
  mgr = mgr;
  rtn = rtn;
}

-- The variables at first, with buffers of `n` and `k` bytes.
abbrev pub fresh_agent : Allocator → ℕ → ℕ → Socket → List Bool → EduMgr → Rtn → Agent
fresh_agent alloc n k =
    agent_with (record { bytes = alloc.fresh; capacity = n; heap = true })
      (record { bytes = alloc.fresh; capacity = k; heap = true })

-- Another turn of the loop, or its end with this value of `rc`.
pub data Turn : Type 0 where
  again : Turn
  leaves : Rc → Turn

-- pmdRecv of `len` bytes to `off` in the receive buffer.
unfoldable pub receive_part : Agent → ℕ → ℕ → Outcome (Rc × Agent)
receive_part a off len =
    if leb (off + len) a.recv_buf.capacity
    then (do
      (((rc, got), sock), forced) ← pmd_recv a.forced a.sock len
      returns (
        rc,
        record a {
          recv_buf = record (a.recv_buf) { bytes = store_bytes a.recv_buf.bytes off got };
          sock = sock;
          forced = forced;
        },
      ))
    else fault

-- A larger receive buffer for a message that is too long, with its length in it again. The sum
-- packetLen + 1 is of type int: past 2^31 it is undefined.
unfoldable pub make_room : Allocator → Agent → ℕ → Outcome (Rc × Agent)
make_room alloc a len =
    let grow = (do
      new_size ← oss_round_upto_multiple_x (len + 1) edb_page_size
      if is_negative new_size
          then returns (edb_invalid_argument, a)
          else if alloc.grants new_size
          then returns (
            edb_ok,
            record a {
              recv_buf = record {
                bytes = store32 alloc.fresh 0 len;
                capacity = new_size;
                heap = true;
              };
              recv_size = new_size;
            },
          )
          else returns (edb_oom, a)) in
    if leb (2 ^ 31) (len + 1)
    then fault
    else if not (ltb a.recv_size (len + 1))
    then returns (edb_ok, a)
    else grow

-- `pRecvBuf[packetLen] = 0`
unfoldable pub put_nul : Agent → ℕ → Agent
put_nul a len = record a {
  recv_buf = record (a.recv_buf) { bytes = store8 a.recv_buf.bytes len 0 };
}

-- The bytes that pmdSend is given: the whole send buffer, whatever the length of the reply.
abbrev pub reply_bytes : Agent → Bytes
reply_bytes a = read_bytes a.send_size a.send_buf.bytes 0

-- `if (rc) goto error`, and `continue` with disconnect set.
abbrev pub unless_failed : Rc × Agent → (Agent → Outcome (Turn × Agent)) → Outcome (Turn × Agent)
unless_failed (rc, a) go = if is_ok rc then go a else returns (leaves rc, a)

module _ (lib : JsonLib) (hash_fn : Bytes → ℕ) (ctx : Context lib) (alloc : Allocator)
    (eid : ℕ) where
  -- activateEdu and waitEdu of the agent's own thread.
  unfoldable pub activate_self : Agent → Outcome (Rc × Agent)
  activate_self a = do (rc, mgr) ← activate_edu eid a.mgr; returns (rc, record a { mgr = mgr })

  unfoldable pub wait_self : Agent → Outcome (Rc × Agent)
  wait_self a = do (rc, mgr) ← wait_edu eid a.mgr; returns (rc, record a { mgr = mgr })

  -- pmdProcessAgentRequest, whose code is only logged.
  unfoldable pub process_self : Agent → Outcome Agent
  process_self a = do
    (_, (send_buf, send_size), rtn) ←
        process_request lib hash_fn ctx alloc a.recv_buf a.send_buf a.send_size a.rtn
    returns (record a { send_buf = send_buf; send_size = send_size; rtn = rtn })

  unfoldable pub send_reply : Agent → Outcome (Rc × Agent)
  send_reply a = do
    ((rc, sock), forced) ← pmd_send a.forced a.sock (reply_bytes a)
    returns (rc, record a { sock = sock; forced = forced })

  -- One turn of the loop. pmdProcessAgentRequest leaves `disconnect` false.
  unfoldable pub turn : Agent → Outcome (Turn × Agent)
  turn a = do
    first ← receive_part a 0 4
    unless_failed first (λ a₁.
        let len = load32 a₁.recv_buf.bytes 0 in
        if slt len 4 then returns (leaves edb_invalid_argument, a₁) else (do
          room ← make_room alloc a₁ len
          unless_failed room (λ a₂. do
            whole ← receive_part a₂ 4 (len - 4)
            unless_failed whole (λ a₃. do
              active ← activate_self (put_nul a₃ len)
              unless_failed active (λ a₄. do
                a₅ ← process_self a₄
                sent ← send_reply a₅
                unless_failed sent (λ a₆. do
                  waits ← wait_self a₆
                  unless_failed waits (λ a₇. returns (again, a₇))))))))

  -- The loop, for as many turns as the fuel, and `done:`.
  unfoldable pub agent_loop : ℕ → Agent → Outcome (Rc × Agent)
  agent_loop zero a = starved
  agent_loop (suc fuel) a = do
    (t, a') ← turn a
    elim t [
      | again ↦ agent_loop fuel a'
      | leaves rc ↦ returns (rc, record a' { sock = close a'.sock })
    ]

  -- The function, on a socket and what the thread has: two buffers are allocated.
  unfoldable pub agent_entry_point : ℕ → Socket → List Bool → EduMgr → Rtn → Outcome (Rc × Agent)
  agent_entry_point fuel sock forced mgr rtn = do
    recv_size ← oss_round_upto_multiple_x agent_receive_buffer_size edb_page_size
    let refused = record (fresh_agent alloc 0 0 sock forced mgr rtn) { sock = close sock }
    if not (alloc.grants recv_size)
        then returns (edb_oom, refused)
        else if not (alloc.grants 4)
        then returns (edb_oom, refused)
        else agent_loop fuel (fresh_agent alloc recv_size 4 sock forced mgr rtn)
