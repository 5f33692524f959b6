-- ===== src/Client/Deleted.antt =====
-- A delete through both programs: the client's order (client/command.cpp), the agent's turn
-- (pmd/pmdAgent.cpp), and the database behind it.
use edbc.Base.{
  ℕ, suc, ◌+◌, ◌%◌, ◌^◌, ◌≤◌, ◌≡◌, refl, true, false, Bool, none, some, List, ◌∷◌, ◌++◌, length,
  if◌then◌else◌, le→leb, arith,
}
use edbc.Base.Outcome.{returns}
use edbc.Base.Outcome.Rc.{edb_ok}
use edbc.Base.Assoc.{lookup}
use edbc.Base.Bytes.{Bytes, bytes_eq}
use edbc.Base.Memory.{Memory, read_bytes}
use edbc.Base.Json.{JsonLib}
use edbc.Ixm.Index.{view}
use edbc.Msg.Buffer.{Buffer, Allocator, slt, check_buffer}
use edbc.Msg.Build.{op_delete, build_delete_msg, build_reply_msg}
use edbc.Msg.RoundTrip.{IsReady, delete-extracted}
use edbc.Oss.Socket.{Poll, Socket}
use edbc.Oss.Recv.{settle, stream, Flows}
use edbc.Oss.Send.{Accepts}
use edbc.Dms.Store.{Contents}
use edbc.Rtn.Methods.{Rtn}
use edbc.Rtn.Database.{IsDb, db_at}
use edbc.Pmd.Edu.{EduCb, waiting}
use edbc.Pmd.Manager.{EduMgr, in_status}
use edbc.Pmd.Invariant.{IsManaged}
use edbc.Pmd.Wire.{quiet}
use edbc.Agent.Room.{rounded_up}
use edbc.Agent.Request.{Context}
use edbc.Agent.Change.{delete-processed}
use edbc.Agent.Loop.{Agent, agent_with, again, turn, edb_page_size}
use edbc.Agent.Serve.{turn-serves}
use edbc.Client.Command.{
  Client, zeroed, order_buffer, client_buf_size, handle_delete_reply, delete_command,
}
use edbc.Client.Order.{execute-handles}
use edbc.Client.Exchange.{IsReply-coming, key-IsIncoming}
use edbc.Client.Query.{key_order, order-length, code_received}
use edbc.Ixm.Bucket.{Rid}

module _ (lib : JsonLib) where
  open lib use {Json, dump, parse, id_field}

  abbrev pub delete_order : Json → Memory
  delete_order key = key_order lib op_delete key

  delete-made :
      (alloc : Allocator) (key : Json)
      → 8 + length (dump key) ≤ client_buf_size
      → build_delete_msg lib alloc order_buffer client_buf_size key
        ≡ returns (edb_ok, record order_buffer { bytes = delete_order key }, client_buf_size)
  unfolding build_delete_msg check_buffer
  delete-made alloc key fits =
      let whole : (8 + length (dump key)) % 2 ^ 32 ≡ 8 + length (dump key) = omega (arith, fits) in
      let over : slt client_buf_size (8 + length (dump key)) ≡ false = ground (arith, fits) in
      rw (whole, over, le→leb (8 + length (dump key)) client_buf_size fits) refl

  module _ (hash_fn : Bytes → ℕ) (alloc : Allocator) (ctx : Context lib) (rtn : Rtn) (f : Contents)
      (db : IsDb lib hash_fn rtn f) (r field : Json) (has_id : id_field r ≡ some field) (at : Rid)
      (found : view hash_fn rtn.index (dump field) ≡ some at) where
    -- A record that a client deletes by its `_id` is out of the database after one turn of the
    -- agent: the database is well-formed and, as a map from ids to texts, the old one without that
    -- id, and the client's command returns 0. On the agent's side: a well-formed database whose
    -- index has the id, a thread that waits and is not forced, buffers that are ready, and bytes
    -- that begin with what the client sends, in pieces of any size; on the client's side: a
    -- connection, and bytes that begin with what the agent sends, in pieces of any size. The
    -- message fits the client's array. The bytes that each side gives its peer are those that the
    -- other takes.
    pub delete-exchanged :
        (rb sb a : Buffer) (sock : Socket) (fs fs₁ fs₂ : List Bool) (ps₁ ps₂ ps₃ : List Poll)
        (mgr : EduMgr) (eid : ℕ) (cb : EduCb) (later : Bytes) (c : Client) (s : Socket)
        (json_str : Bytes) (args : List Bytes) (qs₀ qs₁ qs₂ : List Poll) (more : Bytes) (fuel : ℕ)
        → rb.heap ≡ true
        → 4 ≤ rb.capacity
        → IsManaged mgr
        → lookup eid mgr.run_queue ≡ some cb
        → in_status waiting cb ≡ true
        → quiet fs sock.polls ≡ some (false ∷ fs₁, ps₁)
        → quiet fs₁ ps₁ ≡ some (false ∷ fs₂, ps₂)
        → settle ps₂ ≡ some ps₃
        → alloc.grants (rounded_up (8 + length (dump r) + 1) edb_page_size) ≡ true
        → IsReady alloc sb sb.capacity 16
        → build_reply_msg lib alloc sb sb.capacity 0 none ≡ returns (edb_ok, a, a.capacity)
        → Accepts a.capacity sock.acceptances
        → Flows 0 sock.arrivals
        → stream sock.arrivals ≡ read_bytes (8 + length (dump r)) (delete_order r) 0 ++ later
        → s.alive ≡ true
        → parse json_str ≡ some r
        → 8 + length (dump r) ≤ client_buf_size
        → settle s.polls ≡ some qs₀
        → settle qs₀ ≡ some qs₁
        → settle qs₁ ≡ some qs₂
        → Accepts (8 + length (dump r)) s.acceptances
        → Flows 0 s.arrivals
        → stream s.arrivals ≡ read_bytes a.capacity a.bytes 0 ++ more
        → (g : Agent) × (c' : Client) × (s' : Socket) × (f' : Contents) × (turn lib hash_fn ctx
              alloc eid
              (agent_with rb sb sock (false ∷ fs) mgr rtn)
            ≡ returns (again, g))
          × (delete_command lib alloc (suc fuel) (json_str ∷ args) c s
              ≡ returns ((0, none), c', s'))
          × IsDb lib hash_fn g.rtn f'
          × ((q : Bytes)
              → db_at lib hash_fn g.rtn f' q
                ≡ (if bytes_eq (dump field) q then none else db_at lib hash_fn rtn f q))
          × (g.sock.sent ≡ sock.sent ++ read_bytes a.capacity a.bytes 0)
          × (s'.sent ≡ s.sent ++ read_bytes (8 + length (dump r)) (delete_order r) 0)
    unfolding handle_delete_reply
    delete-exchanged rb sb a sock fs fs₁ fs₂ ps₁ ps₂ ps₃ mgr eid cb later c s json_str args qs₀ qs₁
          qs₂ more fuel heap four managed present waits calm calm' calm'' granted ready replied
          accepted flows asked alive parsed fits quiet₀ quiet₁ quiet₂ accepted' flows' comes =
        let size = 8 + length (dump r) in
        let msg : Buffer = record order_buffer { bytes = delete_order r } in
        let incoming = key-IsIncoming lib op_delete r sock.arrivals later fits flows asked in
        let (rtn', f', answers, db', reads) =
          delete-processed lib hash_fn alloc ctx rtn sb a sb.capacity a.capacity replied f r field
            at db has_id found in
        let (code, _, _, reply, room) =
          IsReply-coming lib alloc sb a sb.capacity none s.arrivals more ready (omega arith) replied
            flows' comes in
        let (g, served_turn, kept, sent, _, _, _) =
          turn-serves msg size sock.arrivals later incoming alloc rb sb sock fs mgr rtn heap four
            refl lib hash_fn ctx eid cb managed present waits fs₁ fs₂ ps₁ ps₂ ps₃ edb_ok a
            a.capacity rtn' calm calm' calm'' granted
            (λ rest room' fits_in. answers _ (
              delete-extracted lib r msg zeroed rest room' ctx.null_json (omega (arith, fits)) refl
                fits_in))
            (omega (arith, room)) accepted in
        let (c', s', done, sent', _) =
          execute-handles lib alloc (build_delete_msg lib alloc) r (delete_order r) size
            (delete-made alloc r fits) (order-length lib op_delete r (omega arith) fits)
            (omega arith) fits (handle_delete_reply lib alloc) (0, none) json_str args c s a.bytes
            16 _ qs₀ qs₁ qs₂ fuel alive parsed quiet₀ quiet₁ quiet₂ accepted' reply
            (rw (code_received lib a.bytes 16 (omega arith) code) refl) in
        (g, c', s', f', served_turn, done, rw kept db', λ q. rw kept (reads q), sent, sent')
