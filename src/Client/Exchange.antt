-- ===== src/Client/Exchange.antt =====
-- A query through both programs: the client's order (client/command.cpp), the agent's turn
-- (pmd/pmdAgent.cpp) and the printed answer.
use edbc.Base.{
  ℕ, suc, ◌+◌, ◌-◌, ◌≤◌, ◌<◌, ◌≡◌, refl, sym, ap, ◌∙◌, true, false, Bool, Option, some, List, ◌∷◌,
  ◌++◌, append_assoc, length, take-append-drop, arith,
}
use edbc.Base.Outcome.{returns}
use edbc.Base.Outcome.Rc.{edb_ok}
use edbc.Base.Assoc.{lookup}
use edbc.Base.Bytes.{Bytes}
use edbc.Base.Memory.{
  Memory, load32, HoldsAt, store32, read_bytes, AgreeOn, store_bytes-outside, store32-outside,
  take-read_bytes, drop-read_bytes,
}
use edbc.Base.Json.{JsonLib}
use edbc.Msg.Buffer.{Buffer, Allocator}
use edbc.Msg.Build.{op_query, op_reply, reply_text, reply_count, build_reply_msg}
use edbc.Msg.RoundTrip.{IsReady, query-extracted}
use edbc.Msg.Records.{reply-built, reply_fields, reply_count_small}
use edbc.Oss.Socket.{Poll, Arrival, Socket}
use edbc.Oss.Recv.{settle, stream, Flows}
use edbc.Oss.Send.{Accepts}
use edbc.Dms.Store.{Contents}
use edbc.Rtn.Methods.{Rtn}
use edbc.Rtn.Database.{IsDb, db_at}
use edbc.Pmd.Edu.{EduCb, waiting}
use edbc.Pmd.Manager.{EduMgr, in_status}
use edbc.Pmd.Invariant.{IsManaged}
use edbc.Pmd.Wire.{quiet}
use edbc.Agent.Request.{Context}
use edbc.Agent.Room.{rounded_up}
use edbc.Agent.Query.{query-processed}
use edbc.Agent.Incoming.{IsIncoming, store32_same}
use edbc.Agent.Loop.{Agent, agent_with, again, turn, edb_page_size}
use edbc.Agent.Serve.{turn-serves}
use edbc.Client.Command.{Client, zeroed, order_buffer, client_buf_size, query_command}
use edbc.Client.Receive.{IsReply}
use edbc.Client.Query.{key_order, query_order, query_command-prints}

-- A buffer's bytes in two parts.
read_bytes-split :
    (k n : ℕ) (m : Memory)
    → k ≤ n
    → read_bytes n m 0 ≡ read_bytes k m 0 ++ read_bytes (n - k) m (0 + k)
read_bytes-split k n m h =
    sym (take-append-drop k (read_bytes n m 0))
    ∙ (λ i. take-read_bytes k n m 0 h i ++ drop-read_bytes k n m 0 h i)

module _ (lib : JsonLib) where
  open lib use {Json, dump, parse, id_field}

  key_starts :
      (op : ℕ) (key : Json)
      → AgreeOn 0 4 (store32 (λ _. 0) 0 (8 + length (dump key))) (key_order lib op key)
  key_starts op key i lo hi =
      store_bytes-outside _ 8 (dump key) i (omega arith)
      ∙ store32-outside (store32 zeroed 0 (8 + length (dump key))) 4 op i (omega arith)

  pub key-IsIncoming :
      (op : ℕ) (key : Json) (qs : List Arrival) (later : Bytes)
      → 8 + length (dump key) ≤ client_buf_size
      → Flows 0 qs
      → stream qs ≡ read_bytes (8 + length (dump key)) (key_order lib op key) 0 ++ later
      → IsIncoming (key_order lib op key) (8 + length (dump key)) qs later
  key-IsIncoming op key qs later fits flows comes = record {
    starts = key_starts op key;
    long = omega arith;
    short = omega (arith, fits);
    flows = flows;
    comes = comes;
  }

  -- The reply of the server, with code 0, is what the client waits for.
  pub IsReply-coming :
      (alloc : Allocator) (send a : Buffer) (n : ℕ) (o : Option Json) (qs : List Arrival)
      (more : Bytes)
      → IsReady alloc send n (16 + length (reply_text lib o))
      → 16 + length (reply_text lib o) < client_buf_size
      → build_reply_msg lib alloc send n 0 o ≡ returns (edb_ok, a, a.capacity)
      → Flows 0 qs
      → stream qs ≡ read_bytes a.capacity a.bytes 0 ++ more
      → (load32 a.bytes 8 ≡ 0)
        × (load32 a.bytes 12 ≡ reply_count lib o)
        × HoldsAt a.bytes 16 (reply_text lib o)
        × IsReply a.bytes (16 + length (reply_text lib o)) qs (
            read_bytes
              (a.capacity - (16 + length (reply_text lib o)))
              a.bytes
              (0 + (16 + length (reply_text lib o)))
            ++ more)
        × (16 + length (reply_text lib o) ≤ a.capacity)
  IsReply-coming alloc send a n o qs more ready small replied flows comes =
      let text = reply_text lib o in
      let total = 16 + length text in
      let (b, m, run, stored, room) = reply-built lib alloc send n 0 o ready in
      let same : b ≡ a = (let e = sym run ∙ replied in cc) in
      let room' : total ≤ a.capacity = omega (arith, ap (λ (x : Buffer). x.capacity) same, room) in
      let stored' = ap (λ (x : Buffer). x.bytes) (sym same) ∙ stored in
      let (_, _, code, count, held) =
        reply_fields a m total (reply_count lib o) 0 text ready.total_small
          (reply_count_small lib o) (omega arith) stored' in
      (
        code,
        count,
        held,
        record {
          starts = λ i lo hi.
              ap (λ (x : Memory). x i) stored'
              ∙ store_bytes-outside _ 16 text i (omega arith)
              ∙ store32-outside _ 8 0 i (omega arith)
              ∙ store32-outside _ 12 (reply_count lib o) i (omega arith)
              ∙ store32_same (store32 m 4 op_reply) (λ _. 0) total i hi;
          long = omega arith;
          fits = small;
          flows = flows;
          comes =
              comes
              ∙ ap (λ x. x ++ more) (read_bytes-split total a.capacity a.bytes room')
              ∙ append_assoc (read_bytes total a.bytes 0) _ more;
        },
        room',
      )

  module _ (hash_fn : Bytes → ℕ) (alloc : Allocator) (ctx : Context lib) (rtn : Rtn) (f : Contents)
      (db : IsDb lib hash_fn rtn f) (key field j : Json) (has_id : id_field key ≡ some field)
      (stored : db_at lib hash_fn rtn f (dump field) ≡ some (dump j)) where
    -- A query that a client sends is answered by one turn of the agent, and the client prints the
    -- record that the database has at the key. On the agent's side: a well-formed database, a
    -- thread that waits and is not forced, buffers that are ready, and bytes that begin with what
    -- the client sends, in pieces of any size; on the client's side: a connection, and bytes that
    -- begin with what the agent sends, in pieces of any size. Both messages fit the client's
    -- arrays. The bytes that each side gives its peer are those that the other takes.
    pub query-exchanged :
        (rb sb a : Buffer) (sock : Socket) (fs fs₁ fs₂ : List Bool) (ps₁ ps₂ ps₃ : List Poll)
        (mgr : EduMgr) (eid : ℕ) (cb : EduCb) (later : Bytes) (c : Client) (s : Socket)
        (json_str : Bytes) (args : List Bytes) (qs₀ qs₁ qs₂ : List Poll) (more : Bytes) (fuel : ℕ)
        → rb.heap ≡ true
        → 4 ≤ rb.capacity
        → IsManaged mgr
        → lookup eid mgr.run_queue ≡ some cb
        → in_status waiting cb ≡ true
        → quiet fs sock.polls ≡ some (false ∷ fs₁, ps₁)
        → quiet fs₁ ps₁ ≡ some (false ∷ fs₂, ps₂)
        → settle ps₂ ≡ some ps₃
        → alloc.grants (rounded_up (8 + length (dump key) + 1) edb_page_size) ≡ true
        → IsReady alloc sb sb.capacity (16 + length (dump j))
        → build_reply_msg lib alloc sb sb.capacity 0 (some j) ≡ returns (edb_ok, a, a.capacity)
        → Accepts a.capacity sock.acceptances
        → Flows 0 sock.arrivals
        → stream sock.arrivals ≡ read_bytes (8 + length (dump key)) (query_order lib key) 0 ++ later
        → s.alive ≡ true
        → parse json_str ≡ some key
        → 8 + length (dump key) ≤ client_buf_size
        → 16 + length (dump j) < client_buf_size
        → settle s.polls ≡ some qs₀
        → settle qs₀ ≡ some qs₁
        → settle qs₁ ≡ some qs₂
        → Accepts (8 + length (dump key)) s.acceptances
        → Flows 0 s.arrivals
        → stream s.arrivals ≡ read_bytes a.capacity a.bytes 0 ++ more
        → (g : Agent) × (c' : Client) × (s' : Socket) × (turn lib hash_fn ctx alloc eid
              (agent_with rb sb sock (false ∷ fs) mgr rtn)
            ≡ returns (again, g))
          × (query_command lib alloc (suc fuel) (json_str ∷ args) c s
              ≡ returns ((0, some j), c', s'))
          × (g.sock.sent ≡ sock.sent ++ read_bytes a.capacity a.bytes 0)
          × (s'.sent ≡ s.sent ++ read_bytes (8 + length (dump key)) (query_order lib key) 0)
    query-exchanged rb sb a sock fs fs₁ fs₂ ps₁ ps₂ ps₃ mgr eid cb later c s json_str args qs₀ qs₁
          qs₂ more fuel heap four managed present waits calm calm' calm'' granted ready replied
          accepted flows asked alive parsed fits small quiet₀ quiet₁ quiet₂ accepted' flows' comes =
        let n = 8 + length (dump key) in
        let msg : Buffer = record order_buffer { bytes = query_order lib key } in
        let incoming = key-IsIncoming op_query key sock.arrivals later fits flows asked in
        let (code, one, text, reply, room) =
          IsReply-coming alloc sb a sb.capacity (some j) s.arrivals more ready small replied flows'
            comes in
        let (g, served_turn, _, sent, _, _, _) =
          turn-serves msg n sock.arrivals later incoming alloc rb sb sock fs mgr rtn heap four refl
            lib hash_fn ctx eid cb managed present waits fs₁ fs₂ ps₁ ps₂ ps₃ edb_ok a a.capacity _
            calm calm' calm'' granted
            (λ rest room' fits_in.
              query-processed lib hash_fn alloc ctx rtn f db key field j has_id stored _ sb a
                sb.capacity a.capacity
                (query-extracted lib key msg zeroed rest room' ctx.null_json (omega (arith, fits))
                  refl fits_in)
                replied)
            (omega (arith, room)) accepted in
        let (c', s', printed, sent', _) =
          query_command-prints lib alloc key j json_str args c s a.bytes _ qs₀ qs₁ qs₂ fuel alive
            parsed fits quiet₀ quiet₁ quiet₂ accepted' reply
            (record { code = code; one = one; text = text }) in
        (g, c', s', served_turn, printed, sent, sent')
