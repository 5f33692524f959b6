-- ===== src/Client/Inserted.antt =====
-- An insert through both programs: the client's order (client/command.cpp), the agent's turn
-- (pmd/pmdAgent.cpp), and the database behind it.
use edbc.Base.{
  ℕ, suc, ◌+◌, ◌%◌, ◌^◌, ◌≤◌, ◌≡◌, refl, ◌∙◌, true, false, Bool, none, some, List, ◌∷◌, ◌++◌,
  length, if◌then◌else◌, le→leb, arith,
}
use edbc.Base.Outcome.{returns}
use edbc.Base.Outcome.Rc.{edb_ok}
use edbc.Base.Assoc.{lookup}
use edbc.Base.Bytes.{Bytes, bytes_eq}
use edbc.Base.Memory.{
  Memory, load32, store32, store_bytes, read_bytes, AgreeOn, store_bytes-outside, store32-outside,
}
use edbc.Base.Multimap.{upper_bound}
use edbc.Base.Json.{JsonLib}
use edbc.Ixm.Index.{view}
use edbc.Msg.Buffer.{Buffer, Allocator, slt, check_buffer}
use edbc.Msg.Build.{op_insert, build_insert_msg, build_reply_msg}
use edbc.Msg.RoundTrip.{IsReady}
use edbc.Msg.Records.{insert_fields, insert-extracted}
use edbc.Oss.Socket.{Poll, Socket}
use edbc.Oss.Recv.{settle, stream, Flows}
use edbc.Oss.Send.{Accepts}
use edbc.Dms.Page.{gap}
use edbc.Dms.Layout.{Slots}
use edbc.Dms.File.{page_to_offset}
use edbc.Dms.Store.{Contents}
use edbc.Rtn.Methods.{Rtn}
use edbc.Rtn.Database.{IsDb, db_at}
use edbc.Pmd.Edu.{EduCb, waiting}
use edbc.Pmd.Manager.{EduMgr, in_status}
use edbc.Pmd.Invariant.{IsManaged}
use edbc.Pmd.Wire.{quiet}
use edbc.Agent.Room.{rounded_up}
use edbc.Agent.Request.{Context}
use edbc.Agent.Change.{insert-processed}
use edbc.Agent.Incoming.{IsIncoming}
use edbc.Agent.Loop.{Agent, agent_with, again, turn, edb_page_size}
use edbc.Agent.Serve.{turn-serves}
use edbc.Client.Command.{
  Client, zeroed, order_buffer, client_buf_size, handle_insert_reply, insert_command,
}
use edbc.Client.Order.{execute-handles}
use edbc.Client.Exchange.{IsReply-coming}

module _ (lib : JsonLib) where
  open lib use {Json, dump, parse, id_field}

  -- The bytes of an insert message in the client's array.
  abbrev pub insert_order : Json → Memory
  insert_order j =
      store_bytes (store32 (store32 (store32 zeroed 0 (12 + length (dump j))) 4 op_insert) 8 1) 12
        (dump j)

  insert-made :
      (alloc : Allocator) (j : Json)
      → 12 + length (dump j) ≤ client_buf_size
      → build_insert_msg lib alloc order_buffer client_buf_size j
        ≡ returns (edb_ok, record order_buffer { bytes = insert_order j }, client_buf_size)
  unfolding build_insert_msg check_buffer
  insert-made alloc j fits =
      let whole : (12 + length (dump j)) % 2 ^ 32 ≡ 12 + length (dump j) = omega (arith, fits) in
      let over : slt client_buf_size (12 + length (dump j)) ≡ false = ground (arith, fits) in
      rw (whole, over, le→leb (12 + length (dump j)) client_buf_size fits) refl

  insert-length :
      (j : Json)
      → 12 + length (dump j) ≤ client_buf_size
      → load32 (insert_order j) 0 ≡ 12 + length (dump j)
  insert-length j fits =
      (insert_fields (record order_buffer { bytes = insert_order j }) zeroed (12 + length (dump j))
        (dump j) (omega (arith, fits)) refl).0

  insert_starts :
      (j : Json) → AgreeOn 0 4 (store32 (λ _. 0) 0 (12 + length (dump j))) (insert_order j)
  insert_starts j i lo hi =
      store_bytes-outside _ 12 (dump j) i (omega arith)
      ∙ store32-outside _ 8 1 i (omega arith)
      ∙ store32-outside (store32 zeroed 0 (12 + length (dump j))) 4 op_insert i (omega arith)

  module _ (hash_fn : Bytes → ℕ) (alloc : Allocator) (ctx : Context lib) (rtn : Rtn) (f : Contents)
      (db : IsDb lib hash_fn rtn f) (r field : Json) (has_id : id_field r ≡ some field)
      (pid free n : ℕ) (m : Memory) (cs : Slots)
      (found : upper_bound (length (dump r) + 12) rtn.file.free_space_map ≡ some (free, pid))
      (page : f pid ≡ some cs) (here : page_to_offset rtn.file pid ≡ some m)
      (gap_takes : length (dump r) + 16 ≤ gap m)
      (absent : view hash_fn rtn.index (dump field) ≡ none) (fuel_given : ctx.fuel ≡ suc n) where
    -- A record with a new `_id` that a client inserts is in the database after one turn of the
    -- agent: the database is well-formed and, as a map from ids to texts, the old one with the
    -- record's text at its id, and the client's command returns 0. On the agent's side: a well-
    -- formed database whose free space map gives a page with room, at least one round for insert,
    -- a thread that waits and is not forced, buffers that are ready, and bytes that begin with
    -- what the client sends, in pieces of any size; on the client's side: a connection, and bytes
    -- that begin with what the agent sends, in pieces of any size. The message fits the client's
    -- array. The bytes that each side gives its peer are those that the other takes.
    pub insert-exchanged :
        (rb sb a : Buffer) (sock : Socket) (fs fs₁ fs₂ : List Bool) (ps₁ ps₂ ps₃ : List Poll)
        (mgr : EduMgr) (eid : ℕ) (cb : EduCb) (later : Bytes) (c : Client) (s : Socket)
        (json_str : Bytes) (args : List Bytes) (qs₀ qs₁ qs₂ : List Poll) (more : Bytes) (fuel : ℕ)
        → rb.heap ≡ true
        → 4 ≤ rb.capacity
        → IsManaged mgr
        → lookup eid mgr.run_queue ≡ some cb
        → in_status waiting cb ≡ true
        → quiet fs sock.polls ≡ some (false ∷ fs₁, ps₁)
        → quiet fs₁ ps₁ ≡ some (false ∷ fs₂, ps₂)
        → settle ps₂ ≡ some ps₃
        → alloc.grants (rounded_up (12 + length (dump r) + 1) edb_page_size) ≡ true
        → IsReady alloc sb sb.capacity 16
        → build_reply_msg lib alloc sb sb.capacity 0 none ≡ returns (edb_ok, a, a.capacity)
        → Accepts a.capacity sock.acceptances
        → Flows 0 sock.arrivals
        → stream sock.arrivals ≡ read_bytes (12 + length (dump r)) (insert_order r) 0 ++ later
        → s.alive ≡ true
        → parse json_str ≡ some r
        → 12 + length (dump r) ≤ client_buf_size
        → settle s.polls ≡ some qs₀
        → settle qs₀ ≡ some qs₁
        → settle qs₁ ≡ some qs₂
        → Accepts (12 + length (dump r)) s.acceptances
        → Flows 0 s.arrivals
        → stream s.arrivals ≡ read_bytes a.capacity a.bytes 0 ++ more
        → (g : Agent) × (c' : Client) × (s' : Socket) × (f' : Contents) × (turn lib hash_fn ctx
              alloc eid
              (agent_with rb sb sock (false ∷ fs) mgr rtn)
            ≡ returns (again, g))
          × (insert_command lib alloc (suc fuel) (json_str ∷ args) c s
              ≡ returns ((0, none), c', s'))
          × IsDb lib hash_fn g.rtn f'
          × ((q : Bytes)
              → db_at lib hash_fn g.rtn f' q
                ≡ (if bytes_eq (dump field) q then some (dump r) else db_at lib hash_fn rtn f q))
          × (g.sock.sent ≡ sock.sent ++ read_bytes a.capacity a.bytes 0)
          × (s'.sent ≡ s.sent ++ read_bytes (12 + length (dump r)) (insert_order r) 0)
    unfolding handle_insert_reply
    insert-exchanged rb sb a sock fs fs₁ fs₂ ps₁ ps₂ ps₃ mgr eid cb later c s json_str args qs₀ qs₁
          qs₂ more fuel heap four managed present waits calm calm' calm'' granted ready replied
          accepted flows asked alive parsed fits quiet₀ quiet₁ quiet₂ accepted' flows' comes =
        let size = 12 + length (dump r) in
        let msg : Buffer = record order_buffer { bytes = insert_order r } in
        let incoming : IsIncoming msg.bytes size sock.arrivals later = record {
          starts = insert_starts r;
          long = omega arith;
          short = omega (arith, fits);
          flows = flows;
          comes = asked;
        } in
        let (rtn', f', answers, db', reads) =
          insert-processed lib hash_fn alloc ctx rtn sb a sb.capacity a.capacity replied f r field
            pid free n m cs db has_id found page here gap_takes absent fuel_given in
        let (_, _, _, reply, room) =
          IsReply-coming lib alloc sb a sb.capacity none s.arrivals more ready (omega arith) replied
            flows' comes in
        let (g, served_turn, kept, sent, _, _, _) =
          turn-serves msg size sock.arrivals later incoming alloc rb sb sock fs mgr rtn heap four
            refl lib hash_fn ctx eid cb managed present waits fs₁ fs₂ ps₁ ps₂ ps₃ edb_ok a
            a.capacity rtn' calm calm' calm'' granted
            (λ rest room' fits_in.
              let (taken, back) =
                insert-extracted lib r msg zeroed rest room' 0 none (omega (arith, fits)) refl
                  fits_in in
              answers _ taken back)
            (omega (arith, room)) accepted in
        let (c', s', done, sent', _) =
          execute-handles lib alloc (build_insert_msg lib alloc) r (insert_order r) size
            (insert-made alloc r fits) (insert-length r fits) (omega arith) fits
            (handle_insert_reply lib alloc) (0, none) json_str args c s a.bytes 16 _ qs₀ qs₁ qs₂
            fuel alive parsed quiet₀ quiet₁ quiet₂ accepted' reply refl in
        (g, c', s', f', served_turn, done, rw kept db', λ q. rw kept (reads q), sent, sent')
