-- ===== src/Agent/Query.antt =====
-- A query from the client's message to the reply (pmd/pmdAgent.cpp, msg/msg.cpp, rtn/rtn.cpp).
use edbc.Base.{ℕ, ◌+◌, ◌<◌, ◌≡◌, inl, inr, true, false, Option, some, length, Bool-cases, arith}
use edbc.Base.Outcome.{returns}
use edbc.Base.Outcome.Rc.{edb_ok, edb_invalid_argument}
use edbc.Base.Latch.{reading}
use edbc.Base.Bytes.{Bytes}
use edbc.Base.Memory.{Memory, HoldsAt, load32}
use edbc.Base.Json.{JsonLib}
use edbc.Msg.Buffer.{Buffer, Allocator, slt, receive}
use edbc.Msg.Build.{op_query, build_query_msg, build_reply_msg}
use edbc.Msg.Extract.{bad_header, extract_query_msg, extract_reply_msg}
use edbc.Msg.RoundTrip.{IsReady, query-round_trip}
use edbc.Msg.Records.{reply-round_trip}
use edbc.Rtn.Methods.{Rtn}
use edbc.Rtn.Database.{IsDb, db_at, rtn_find-reads}
use edbc.Dms.Store.{Contents}
use edbc.Agent.Request.{Context, with_id, handle, handle_query, process_request}

module _ (lib : JsonLib) where
  open lib use {Json, dump, id_field}

  -- A message that a query is taken out of has a query's header.
  query_header :
      (d : Buffer) (old r : Json)
      → extract_query_msg lib d old ≡ returns (edb_ok, r)
      → (slt (load32 d.bytes 0) 8 ≡ false) × (load32 d.bytes 4 ≡ op_query)
  unfolding extract_query_msg
  query_header d old r e = elim (Bool-cases (bad_header d 8 op_query)) [
    | inl t ↦
        let no : returns (edb_invalid_argument, old) ≡ returns (edb_ok, r) = rw t at e in (cc, cc)
    | inr t ↦ (ground arith, ground arith)
  ]

  module _ (hash_fn : Bytes → ℕ) (alloc : Allocator) (ctx : Context lib) (s : Rtn) (f : Contents)
      (h : IsDb lib hash_fn s f) (key field j : Json) (has_id : id_field key ≡ some field)
      (stored : db_at lib hash_fn s f (dump field) ≡ some (dump j)) where
    abbrev pub served : Rtn
    served = record s { file = record (s.file) { rw_mutex = reading s.file.rw_mutex } }

    handle-query :
        (d : Buffer)
        → extract_query_msg lib d ctx.null_json ≡ returns (edb_ok, key)
        → handle lib hash_fn ctx d s ≡ returns ((edb_ok, j), served)
    unfolding handle handle_query
    handle-query d got =
        let (long, op) = query_header d ctx.null_json key got in
        let reads =
          rtn_find-reads lib hash_fn s f h key field has_id j ctx.null_json ctx.rid stored in
        rw (handle, long, op) (rw (handle_query, got, with_id, has_id, reads))

    -- A message with the key in it is answered by the reply that is built.
    pub query-processed :
        (d send a : Buffer) (snd_size n : ℕ)
        → extract_query_msg lib d ctx.null_json ≡ returns (edb_ok, key)
        → build_reply_msg lib alloc send snd_size 0 (some j) ≡ returns (edb_ok, a, n)
        → process_request lib hash_fn ctx alloc d send snd_size s ≡ returns (edb_ok, (a, n), served)
    unfolding process_request
    query-processed d send a snd_size n taken replied =
        let (long, op) = query_header d ctx.null_json key taken in
        rw (process_request, handle-query d taken, op) (rw replied)

    -- A query message that the client builds for a key with an `_id`, received whole with a NUL
    -- behind it, is answered: on a well-formed database that has a record's text at that id, with
    -- buffers that are ready for both messages, pmdProcessAgentRequest returns EDB_OK and leaves
    -- in the send buffer a reply from which extractReplyMsg takes code 0, one record, and the
    -- record's text; the read latch of the data file stays taken.
    pub query-answered :
        (b send : Buffer) (p_size snd_size : ℕ) (rest rest' : Memory) (room room' rtn count : ℕ)
        (old : Option ℕ)
        → IsReady alloc b p_size (8 + length (dump key))
        → IsReady alloc send snd_size (16 + length (dump j))
        → 8 + length (dump key) < room
        → 16 + length (dump j) < room'
        → (c : Buffer) × (a : Buffer) × (build_query_msg lib alloc b p_size key
            ≡ returns (edb_ok, c, c.capacity))
          × (process_request lib hash_fn ctx alloc
                (receive c (8 + length (dump key)) rest room)
                send
                snd_size
                s
              ≡ returns (edb_ok, (a, a.capacity), served))
          × (extract_reply_msg (receive a (16 + length (dump j)) rest' room') rtn count true old
              ≡ (edb_ok, 0, 1, some 16))
          × HoldsAt ((receive a (16 + length (dump j)) rest' room').bytes) 16 (dump j)
    query-answered b send p_size snd_size rest rest' room room' rtn count old ready ready' fits
          fits' =
        let (c, made, taken) =
          query-round_trip lib alloc b p_size key ready rest room ctx.null_json fits in
        let (a, replied, reply, text) =
          reply-round_trip lib alloc send snd_size 0 (some j) rest' room' rtn count old
            (omega arith) ready' fits' in
        (c, a, made, query-processed _ send a snd_size a.capacity taken replied, reply, text)
