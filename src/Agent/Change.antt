-- ===== src/Agent/Change.antt =====
-- Inserts and deletes from the client's message to the reply (pmd/pmdAgent.cpp, msg/msg.cpp,
-- rtn/rtn.cpp).
use edbc.Base.{
  ℕ, suc, ◌+◌, ◌^◌, ◌≤◌, ◌<◌, ◌≡◌, ◌⊎◌, refl, inl, inr, true, false, Option, none, some, length,
  if◌then◌else◌, Bool-cases, arith,
}
use edbc.Base.Outcome.{returns}
use edbc.Base.Outcome.Rc.{edb_ok, edb_invalid_argument}
use edbc.Base.Bytes.{Bytes, bytes_eq}
use edbc.Base.Memory.{Memory, load32}
use edbc.Base.Multimap.{upper_bound}
use edbc.Base.Json.{JsonLib}
use edbc.Ixm.Bucket.{Rid}
use edbc.Ixm.Index.{view}
use edbc.Msg.Buffer.{Buffer, Allocator, slt, receive}
use edbc.Msg.Build.{op_insert, op_delete, build_insert_msg, build_delete_msg, build_reply_msg}
use edbc.Msg.Extract.{
  parse_at, bad_header, extract_insert_msg, extract_delete_msg, extract_reply_msg,
}
use edbc.Msg.RoundTrip.{IsReady, delete-round_trip}
use edbc.Msg.Records.{insert-round_trip, reply-round_trip}
use edbc.Dms.Page.{gap}
use edbc.Dms.Layout.{Slots}
use edbc.Dms.File.{page_to_offset}
use edbc.Dms.Store.{Contents}
use edbc.Rtn.Methods.{Rtn}
use edbc.Rtn.Database.{IsDb, db_at}
use edbc.Rtn.Update.{rtn_insert-adds}
use edbc.Rtn.Remove.{rtn_remove-removes}
use edbc.Agent.Request.{Context, with_id, handle, handle_insert, handle_delete, process_request}

zero_word : 0 < 2 ^ 32
zero_word = omega arith

module _ (lib : JsonLib) where
  open lib use {Json, dump, id_field}

  insert_header :
      (d : Buffer)
      → extract_insert_msg d 0 true none ≡ returns (edb_ok, 1, some 12)
      → (slt (load32 d.bytes 0) 8 ≡ false) × (load32 d.bytes 4 ≡ op_insert)
  unfolding extract_insert_msg
  insert_header d e = elim (Bool-cases (bad_header d 12 op_insert)) [
    | inl t ↦
        let no : returns (edb_invalid_argument, 0, none) ≡ returns (edb_ok, 1, some 12) =
          rw t at e in
        (cc, cc)
    | inr t ↦ (ground arith, ground arith)
  ]

  delete_header :
      (d : Buffer) (old r : Json)
      → extract_delete_msg lib d old ≡ returns (edb_ok, r)
      → (slt (load32 d.bytes 0) 8 ≡ false) × (load32 d.bytes 4 ≡ op_delete)
  unfolding extract_delete_msg
  delete_header d old r e = elim (Bool-cases (bad_header d 8 op_delete)) [
    | inl t ↦
        let no : returns (edb_invalid_argument, old) ≡ returns (edb_ok, r) = rw t at e in (cc, cc)
    | inr t ↦ (ground arith, ground arith)
  ]

  module _ (hash_fn : Bytes → ℕ) (alloc : Allocator) (ctx : Context lib) (s : Rtn) (send a : Buffer)
      (snd_size n' : ℕ)
      (replied : build_reply_msg lib alloc send snd_size 0 none ≡ returns (edb_ok, a, n')) where
    -- A message that is handled is answered by the reply that is built.
    answered_by :
        (d : Buffer) (s' : Rtn) (op : ℕ)
        → load32 d.bytes 4 ≡ op
        → (op ≡ op_insert) ⊎ (op ≡ op_delete)
        → handle lib hash_fn ctx d s ≡ returns ((edb_ok, ctx.null_json), s')
        → process_request lib hash_fn ctx alloc d send snd_size s ≡ returns (edb_ok, (a, n'), s')
    unfolding process_request
    answered_by d s' op at which run = elim which [
      | inl e ↦ rw (process_request, run, at, e) (rw replied)
      | inr e ↦ rw (process_request, run, at, e) (rw replied)
    ]

    -- Whatever message has a record with a new `_id` in it, the record is added.
    pub insert-processed :
        (f : Contents) (r field : Json) (pid fs n : ℕ) (m : Memory) (cs : Slots)
        → IsDb lib hash_fn s f
        → id_field r ≡ some field
        → upper_bound (length (dump r) + 12) s.file.free_space_map ≡ some (fs, pid)
        → f pid ≡ some cs
        → page_to_offset s.file pid ≡ some m
        → length (dump r) + 16 ≤ gap m
        → view hash_fn s.index (dump field) ≡ none
        → ctx.fuel ≡ suc n
        → (s' : Rtn) × (f' : Contents) × ((d : Buffer)
            → extract_insert_msg d 0 true none ≡ returns (edb_ok, 1, some 12)
            → parse_at lib d 12 ≡ returns r
            → process_request lib hash_fn ctx alloc d send snd_size s
              ≡ returns (edb_ok, (a, n'), s'))
          × IsDb lib hash_fn s' f'
          × ((q : Bytes)
              → db_at lib hash_fn s' f' q
                ≡ (if bytes_eq (dump field) q then some (dump r) else db_at lib hash_fn s f q))
    unfolding handle handle_insert
    insert-processed f r field pid fs n m cs h has_id found page here fits absent fuel =
        let (s', run, db, reads) =
          rtn_insert-adds lib hash_fn s f h r field has_id pid fs m cs found page here fits absent
            ctx.os n ctx.null_json ctx.rid in
        (
          s',
          _,
          λ d taken parsed.
              let (long, op) = insert_header d taken in
              let handled : handle lib hash_fn ctx d s ≡ returns ((edb_ok, ctx.null_json), s') =
                rw (handle, long, op)
                  (rw (handle_insert, taken) (rw (parsed, with_id, has_id, fuel, run))) in
              answered_by d s' op_insert op (inl refl) handled,
          db,
          reads,
        )

    -- Whatever message has the record of an `_id` in it, that record is removed.
    pub delete-processed :
        (f : Contents) (r field : Json) (at : Rid)
        → IsDb lib hash_fn s f
        → id_field r ≡ some field
        → view hash_fn s.index (dump field) ≡ some at
        → (s' : Rtn) × (f' : Contents) × ((d : Buffer)
            → extract_delete_msg lib d ctx.null_json ≡ returns (edb_ok, r)
            → process_request lib hash_fn ctx alloc d send snd_size s
              ≡ returns (edb_ok, (a, n'), s'))
          × IsDb lib hash_fn s' f'
          × ((q : Bytes)
              → db_at lib hash_fn s' f' q
                ≡ (if bytes_eq (dump field) q then none else db_at lib hash_fn s f q))
    unfolding handle handle_delete
    delete-processed f r field at h has_id found =
        let (s', f', run, db, reads) =
          rtn_remove-removes lib hash_fn s f h r field has_id at found ctx.rid in
        (
          s',
          f',
          λ d taken.
              let (long, op) = delete_header d ctx.null_json r taken in
              let handled : handle lib hash_fn ctx d s ≡ returns ((edb_ok, ctx.null_json), s') =
                rw (handle, long, op) (rw (handle_delete, taken, with_id, has_id, run)) in
              answered_by d s' op_delete op (inr refl) handled,
          db,
          reads,
        )

  module _ (hash_fn : Bytes → ℕ) (alloc : Allocator) (ctx : Context lib) (s : Rtn) (f : Contents)
      (h : IsDb lib hash_fn s f) (r field : Json) (has_id : id_field r ≡ some field)
      (b send : Buffer) (p_size snd_size : ℕ) (rest rest' : Memory) (room room' rtn count : ℕ)
      (old : Option ℕ) (ready' : IsReady alloc send snd_size 16) (fits' : 16 < room') where
    -- A delete message that the client builds for an `_id` that the index has, received whole with
    -- a NUL behind it, on a well-formed database, with buffers that are ready:
    -- pmdProcessAgentRequest returns EDB_OK, the database is well-formed and, as a map from ids to
    -- texts, the old one without that id, and the reply has code 0 and no record.
    pub delete-answered :
        (at : Rid)
        → view hash_fn s.index (dump field) ≡ some at
        → IsReady alloc b p_size (8 + length (dump r))
        → 8 + length (dump r) < room
        → (c : Buffer) × (a : Buffer) × (s' : Rtn) × (f' : Contents) × (build_delete_msg lib alloc b
              p_size r
            ≡ returns (edb_ok, c, c.capacity))
          × (process_request lib hash_fn ctx alloc
                (receive c (8 + length (dump r)) rest room)
                send
                snd_size
                s
              ≡ returns (edb_ok, (a, a.capacity), s'))
          × IsDb lib hash_fn s' f'
          × ((q : Bytes)
              → db_at lib hash_fn s' f' q
                ≡ (if bytes_eq (dump field) q then none else db_at lib hash_fn s f q))
          × (extract_reply_msg (receive a 16 rest' room') rtn count true old
              ≡ (edb_ok, 0, 0, some 16))
    delete-answered at found ready fits =
        let (c, made, taken) =
          delete-round_trip lib alloc b p_size r ready rest room ctx.null_json fits in
        let (a, replied, reply, _) =
          reply-round_trip lib alloc send snd_size 0 none rest' room' rtn count old zero_word ready'
            fits' in
        let (s', f', answers, db, reads) =
          delete-processed hash_fn alloc ctx s send a snd_size a.capacity replied f r field at h
            has_id found in
        (c, a, s', f', made, answers _ taken, db, reads, reply)

    -- An insert message that the client builds for a record with a new `_id`, received whole with
    -- a NUL behind it, on a well-formed database whose free space map gives a page with room, with
    -- buffers that are ready and at least one round for insert: pmdProcessAgentRequest returns
    -- EDB_OK, the database is well-formed and, as a map from ids to texts, the old one with the
    -- record's text at its id, and the reply has code 0 and no record.
    pub insert-answered :
        (pid fs n : ℕ) (m : Memory) (cs : Slots)
        → upper_bound (length (dump r) + 12) s.file.free_space_map ≡ some (fs, pid)
        → f pid ≡ some cs
        → page_to_offset s.file pid ≡ some m
        → length (dump r) + 16 ≤ gap m
        → view hash_fn s.index (dump field) ≡ none
        → ctx.fuel ≡ suc n
        → IsReady alloc b p_size (12 + length (dump r))
        → 12 + length (dump r) < room
        → (c : Buffer) × (a : Buffer) × (s' : Rtn) × (f' : Contents) × (build_insert_msg lib alloc b
              p_size r
            ≡ returns (edb_ok, c, c.capacity))
          × (process_request lib hash_fn ctx alloc
                (receive c (12 + length (dump r)) rest room)
                send
                snd_size
                s
              ≡ returns (edb_ok, (a, a.capacity), s'))
          × IsDb lib hash_fn s' f'
          × ((q : Bytes)
              → db_at lib hash_fn s' f' q
                ≡ (if bytes_eq (dump field) q then some (dump r) else db_at lib hash_fn s f q))
          × (extract_reply_msg (receive a 16 rest' room') rtn count true old
              ≡ (edb_ok, 0, 0, some 16))
    insert-answered pid fs n m cs found page here fits absent fuel ready fits_in =
        let (c, made, taken, parsed) =
          insert-round_trip lib alloc b p_size r rest room 0 none ready fits_in in
        let (a, replied, reply, _) =
          reply-round_trip lib alloc send snd_size 0 none rest' room' rtn count old zero_word ready'
            fits' in
        let (s', f', answers, db, reads) =
          insert-processed hash_fn alloc ctx s send a snd_size a.capacity replied f r field pid fs n
            m cs h has_id found page here fits absent fuel in
        (c, a, s', f', made, answers _ taken parsed, db, reads, reply)
