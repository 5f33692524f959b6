-- ===== src/Agent/Serve.antt =====
-- One turn of pmdAgentEntryPoint (pmd/pmdAgent.cpp): a message that comes in pieces is received
-- whole, processed, and answered.
use edbc.Base.{
  ℕ, ◌+◌, ◌-◌, ◌≤◌, ◌<◌, ◌≡◌, refl, ap, ◌∙◌, Bool, true, false, some, List, ◌∷◌, ◌++◌, length,
  arith,
}
use edbc.Base.Outcome.{returns, Rc}
use edbc.Base.Outcome.Rc.{edb_ok}
use edbc.Base.Assoc.{lookup}
use edbc.Base.Bytes.{Bytes}
use edbc.Base.Memory.{
  Memory, load32, store8, store_bytes, read_bytes, load32_agree, length-read_bytes,
}
use edbc.Base.Json.{JsonLib}
use edbc.Msg.Buffer.{Buffer, Allocator, slt, receive}
use edbc.Oss.Socket.{Poll, Arrival, Socket}
use edbc.Oss.Recv.{settle, stream}
use edbc.Oss.Send.{Accepts, send-delivers}
use edbc.Pmd.Edu.{EduCb, running, waiting, set_status}
use edbc.Pmd.Manager.{EduMgr, set_run, in_status, activate_edu, wait_edu}
use edbc.Pmd.Invariant.{IsManaged, set_run-IsManaged}
use edbc.Pmd.Own.{activate_waiting, wait_running}
use edbc.Pmd.Cycle.{looked_up}
use edbc.Pmd.Wire.{quiet, pmd_send-once}
use edbc.Rtn.Methods.{Rtn}
use edbc.Agent.Room.{rounded_up}
use edbc.Agent.Request.{Context, process_request}
use edbc.Agent.Loop.{
  Agent, agent_with, again, put_nul, activate_self, wait_self, process_self, send_reply, turn,
  edb_page_size,
}
use edbc.Agent.Incoming.{
  IsIncoming, header_length, received_whole, with_first, first_agree, first_part, room_for,
  second_part,
}

module _ (msg : Buffer) (total : ℕ) (qs : List Arrival) (later : Bytes)
    (h : IsIncoming msg.bytes total qs later) (alloc : Allocator) (rb sb : Buffer) (sock : Socket)
    (fs : List Bool) (mgr : EduMgr) (rtn : Rtn) (heap : rb.heap ≡ true) (four : 4 ≤ rb.capacity)
    (from : sock.arrivals ≡ qs) where
  module _ (lib : JsonLib) (hash_fn : Bytes → ℕ) (ctx : Context lib) (eid : ℕ) (cb : EduCb)
      (managed : IsManaged mgr) (present : lookup eid mgr.run_queue ≡ some cb)
      (waits : in_status waiting cb ≡ true) where
    abbrev active : EduMgr
    active = set_run eid (set_status running cb) mgr

    abbrev rested : EduMgr
    rested = set_run eid (set_status waiting (set_status running cb)) active

    activates : activate_edu eid mgr ≡ returns (edb_ok, active)
    activates = activate_waiting mgr eid cb managed present waits

    active-IsManaged : IsManaged active
    active-IsManaged =
        set_run-IsManaged mgr eid (set_status running cb) managed
          (record { own_id = (managed.live eid cb present).own_id; alive = omega arith })

    rests : wait_edu eid active ≡ returns (edb_ok, rested)
    rests =
        wait_running active eid (set_status running cb) active-IsManaged
          (looked_up mgr eid (set_status running cb)) refl

    rested-IsManaged : IsManaged rested
    rested-IsManaged =
        set_run-IsManaged active eid (set_status waiting cb) active-IsManaged
          (record { own_id = (managed.live eid cb present).own_id; alive = omega arith })

    -- One turn of pmdAgentEntryPoint on a message that comes in pieces of any size, with time-outs
    -- and interruptions in between, for a thread that waits and is not forced, a receive buffer of
    -- at least four bytes, and an allocator that grants a larger one: where pmdProcessAgentRequest
    -- on the message with a NUL behind it returns, the peer is given the whole send buffer, the
    -- database is as pmdProcessAgentRequest leaves it, what comes behind the message is left, and
    -- the thread waits again.
    pub turn-serves :
        (fs₁ fs₂ : List Bool) (ps₁ ps₂ ps₃ : List Poll) (rc : Rc) (sb' : Buffer) (n : ℕ)
        (rtn' : Rtn)
        → quiet fs sock.polls ≡ some (false ∷ fs₁, ps₁)
        → quiet fs₁ ps₁ ≡ some (false ∷ fs₂, ps₂)
        → settle ps₂ ≡ some ps₃
        → alloc.grants (rounded_up (total + 1) edb_page_size) ≡ true
        → ((rest : Memory) (room : ℕ)
            → total < room
            → process_request lib hash_fn ctx alloc (receive msg total rest room) sb sb.capacity rtn
              ≡ returns (rc, (sb', n), rtn'))
        → 0 < n
        → Accepts n sock.acceptances
        → (a : Agent) × (turn lib hash_fn ctx alloc eid (agent_with rb sb sock (false ∷ fs) mgr rtn)
            ≡ returns (again, a))
          × (a.rtn ≡ rtn')
          × (a.sock.sent ≡ sock.sent ++ read_bytes n sb'.bytes 0)
          × (stream a.sock.arrivals ≡ later)
          × IsManaged a.mgr
          × (lookup eid a.mgr.run_queue ≡ some (set_status waiting cb))
    unfolding turn activate_self wait_self process_self send_reply put_nul
    turn-serves fs₁ fs₂ ps₁ ps₂ ps₃ rc sb' n rtn' calm calm' calm'' granted answers some_reply
          accepted =
        let (qs₁, first, comes₁, flows₁) =
          first_part msg total qs later h alloc rb sb sock fs mgr rtn heap four from (false ∷ fs₁)
            ps₁ calm in
        let length_read : load32
              (with_first msg total qs later h alloc rb sb sock fs mgr rtn heap four from).bytes 0
            ≡ total =
          load32_agree msg.bytes
            ((with_first msg total qs later h alloc rb sb sock fs mgr rtn heap four from).bytes) 0
            (λ i lo hi.
              first_agree msg total qs later h alloc rb sb sock fs mgr rtn heap four from i lo
                (omega arith))
          ∙ header_length msg total qs later h in
        let enough : slt total 4 ≡ false = ground (arith, h.long, h.short) in
        let (rb', grown, heap', room, agree) =
          room_for msg total qs later h alloc rb sb sock fs mgr rtn heap four from
            (record sock { polls = ps₁; arrivals = qs₁ }) (false ∷ fs₁) granted in
        let (qs₂, second, comes₂) =
          second_part msg total qs later h alloc rb sb sock fs mgr rtn heap four from rb' qs₁ ps₁
            ps₂ fs₁ (false ∷ fs₂) room comes₁ flows₁ calm' in
        let whole = store8 (store_bytes rb'.bytes 4 (read_bytes (total - 4) msg.bytes 4)) total 0 in
        let processed =
          ap (λ (b : Buffer). process_request lib hash_fn ctx alloc b sb sb.capacity rtn)
            (ap (λ (x : Bool). record { bytes = whole; capacity = rb'.capacity; heap = x }) heap'
              ∙ received_whole msg total qs later h rb'.bytes rb'.capacity agree)
          ∙ answers rb'.bytes rb'.capacity room in
        let reply = read_bytes n sb'.bytes 0 in
        let size : length reply ≡ n = length-read_bytes n sb'.bytes 0 in
        let (ts, delivered) =
          send-delivers (record sock { polls = ps₂; arrivals = qs₂ }) reply ps₃
            (omega (arith, size)) calm'' (rw size accepted) in
        let sent = pmd_send-once fs₂ _ _ reply edb_ok delivered in
        (
          record {
            recv_buf = record { bytes = whole; capacity = rb'.capacity; heap = rb'.heap };
            recv_size = rb'.capacity;
            send_buf = sb';
            send_size = n;
            sock = record sock {
              polls = ps₃;
              arrivals = qs₂;
              acceptances = ts;
              sent = sock.sent ++ reply;
            };
            forced = fs₂;
            mgr = rested;
            rtn = rtn';
          },
          rw (first, length_read, enough, grown, second, activates, processed, sent, rests),
          refl,
          refl,
          comes₂,
          rested-IsManaged,
          looked_up active eid (set_status waiting cb),
        )
