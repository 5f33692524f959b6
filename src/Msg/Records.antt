-- ===== src/Msg/Records.antt =====
-- The messages with a count and an object behind it, insert and reply (msg/msg.cpp).
use edbc.Base.{ℕ, ◌+◌, ◌^◌, ◌<◌, ◌≤◌, ◌≡◌, ◌∙◌, true, Option, none, some, length, arith}
use edbc.Base.Outcome.{returns}
use edbc.Base.Outcome.Rc.{edb_ok}
use edbc.Base.Bytes.{Bytes}
use edbc.Base.Memory.{
  Memory, store32, load32, store_bytes, HoldsAt, store_bytes-HoldsAt, load32-store32,
  load32-outside, HoldsAt-agree,
}
use edbc.Base.Json.{JsonLib}
use edbc.Msg.Buffer.{Buffer, Allocator, receive}
use edbc.Msg.Build.{op_reply, op_insert, reply_text, reply_count, build_reply_msg, build_insert_msg}
use edbc.Msg.Extract.{parse_at, extract_reply_msg, extract_insert_msg}
use edbc.Msg.RoundTrip.{
  IsReady, receive-IsReceived, built, load32-before, cut, good_header, received_field,
  parse_at-received,
}

-- The fields of an insert message.
pub insert_fields :
    (c : Buffer) (m : Memory) (size : ℕ) (text : Bytes)
    → size < 2 ^ 31
    → c.bytes ≡ store_bytes (store32 (store32 (store32 m 0 size) 4 op_insert) 8 1) 12 text
    → (load32 c.bytes 0 ≡ size)
      × (load32 c.bytes 4 ≡ op_insert)
      × (load32 c.bytes 8 ≡ 1)
      × HoldsAt c.bytes 12 text
insert_fields c m size text small e = rw e (
  load32-before _ 12 0 text (omega arith)
      ∙ load32-outside _ 8 1 0 (omega arith)
      ∙ load32-outside (store32 m 0 size) 4 op_insert 0 (omega arith)
      ∙ load32-store32 m 0 size (omega arith),
  load32-before _ 12 4 text (omega arith)
      ∙ load32-outside _ 8 1 4 (omega arith)
      ∙ load32-store32 (store32 m 0 size) 4 op_insert (omega arith),
  load32-before _ 12 8 text (omega arith) ∙ load32-store32 _ 8 1 (omega arith),
  store_bytes-HoldsAt _ 12 text,
)

-- The fields of a reply.
pub reply_fields :
    (c : Buffer) (m : Memory) (size count code : ℕ) (text : Bytes)
    → size < 2 ^ 31
    → count < 2 ^ 31
    → code < 2 ^ 32
    → c.bytes
      ≡ store_bytes
          (store32 (store32 (store32 (store32 m 4 op_reply) 0 size) 12 count) 8 code)
          16
          text
    → (load32 c.bytes 0 ≡ size)
      × (load32 c.bytes 4 ≡ op_reply)
      × (load32 c.bytes 8 ≡ code)
      × (load32 c.bytes 12 ≡ count)
      × HoldsAt c.bytes 16 text
reply_fields c m size count code text small few word e = rw e (
  load32-before _ 16 0 text (omega arith)
      ∙ load32-outside _ 8 code 0 (omega arith)
      ∙ load32-outside _ 12 count 0 (omega arith)
      ∙ load32-store32 (store32 m 4 op_reply) 0 size (omega arith),
  load32-before _ 16 4 text (omega arith)
      ∙ load32-outside _ 8 code 4 (omega arith)
      ∙ load32-outside _ 12 count 4 (omega arith)
      ∙ load32-outside (store32 m 4 op_reply) 0 size 4 (omega arith)
      ∙ load32-store32 m 4 op_reply (omega arith),
  load32-before _ 16 8 text (omega arith) ∙ load32-store32 _ 8 code (omega arith),
  load32-before _ 16 12 text (omega arith)
      ∙ load32-outside _ 8 code 12 (omega arith)
      ∙ load32-store32 _ 12 count (omega arith),
  store_bytes-HoldsAt _ 16 text,
)

pub reply_count_small : (lib : JsonLib) (o : Option lib.Json) → reply_count lib o < 2 ^ 31
reply_count_small lib none = omega arith
reply_count_small lib (some j) = omega arith

-- An insert message that is received whole with a NUL behind it gives back the record.
pub insert-extracted :
    (lib : JsonLib) (j : lib.Json) (c : Buffer) (m rest : Memory) (room count : ℕ) (old : Option ℕ)
    → 12 + length (lib.dump j) < 2 ^ 31
    → c.bytes
      ≡ store_bytes
          (store32 (store32 (store32 m 0 (12 + length (lib.dump j))) 4 op_insert) 8 1)
          12
          (lib.dump j)
    → 12 + length (lib.dump j) < room
    → (extract_insert_msg (receive c (12 + length (lib.dump j)) rest room) count true old
        ≡ returns (edb_ok, 1, some 12))
      × (parse_at lib (receive c (12 + length (lib.dump j)) rest room) 12 ≡ returns j)
unfolding extract_insert_msg
insert-extracted lib j c m rest room count old small stored fits_in =
    let size = 12 + length (lib.dump j) in
    let (len, code, one, text) = insert_fields c m size (lib.dump j) small stored in
    let d = receive c size rest room in
    let got = receive-IsReceived c size rest room fits_in in
    (
      rw (
        good_header d size 12 op_insert (received_field c d size 0 got (omega arith) ∙ len)
            (received_field c d size 4 got (omega arith) ∙ code) (omega arith) small,
        received_field c d size 8 got (omega arith) ∙ one,
      ),
      parse_at-received lib c d 12 j got text,
    )

module _ (lib : JsonLib) (alloc : Allocator) (b : Buffer) (p_size : ℕ) where
  open lib use {Json, dump}

  -- An insert message of one record that is built into a ready buffer, and received whole with a
  -- NUL behind it: extractInsertMsg returns EDB_OK, one record and its place, where the record is
  -- parsed back.
  pub insert-round_trip :
      (j : Json) (rest : Memory) (room count : ℕ) (old : Option ℕ)
      → IsReady alloc b p_size (12 + length (dump j))
      → 12 + length (dump j) < room
      → (c : Buffer) × (build_insert_msg lib alloc b p_size j ≡ returns (edb_ok, c, c.capacity))
        × (extract_insert_msg (receive c (12 + length (dump j)) rest room) count true old
            ≡ returns (edb_ok, 1, some 12))
        × (parse_at lib (receive c (12 + length (dump j)) rest room) 12 ≡ returns j)
  unfolding build_insert_msg
  insert-round_trip j rest room count old ready fits_in =
      let size = 12 + length (dump j) in
      let (c, m, run, stored, fits) =
        built alloc b p_size size
          (λ m. store_bytes (store32 (store32 (store32 m 0 size) 4 op_insert) 8 1) 12 (dump j))
          ready in
      let (taken, parsed) =
        insert-extracted lib j c m rest room count old ready.total_small stored fits_in in
      (c, rw (cut size ready.total_small) run, taken, parsed)

  -- The reply as it stands in the buffer.
  pub reply-built :
      (code : ℕ) (o : Option Json)
      → IsReady alloc b p_size (16 + length (reply_text lib o))
      → (c : Buffer) × (m : Memory) × (build_reply_msg lib alloc b p_size code o
          ≡ returns (edb_ok, c, c.capacity))
        × (c.bytes
            ≡ store_bytes
                (store32
                  (store32
                    (store32 (store32 m 4 op_reply) 0 (16 + length (reply_text lib o)))
                    12
                    (reply_count lib o))
                  8
                  code)
                16
                (reply_text lib o))
        × (16 + length (reply_text lib o) ≤ c.capacity)
  unfolding build_reply_msg
  reply-built code o ready =
      let size = 16 + length (reply_text lib o) in
      let (c, m, run, stored, fits) =
        built alloc b p_size size
          (λ m.
            store_bytes
              (store32 (store32 (store32 (store32 m 4 op_reply) 0 size) 12 (reply_count lib o)) 8
                code)
              16 (reply_text lib o))
          ready in
      (c, m, rw (cut size ready.total_small) run, stored, fits)

  -- A reply with a 32-bit code and one object or none that is built into a ready buffer, and
  -- received whole: extractReplyMsg returns EDB_OK, the code, the number of objects, and the place
  -- of the object's text.
  pub reply-round_trip :
      (code : ℕ) (o : Option Json) (rest : Memory) (room rtn count : ℕ) (old : Option ℕ)
      → code < 2 ^ 32
      → IsReady alloc b p_size (16 + length (reply_text lib o))
      → 16 + length (reply_text lib o) < room
      → (c : Buffer) × (build_reply_msg lib alloc b p_size code o ≡ returns (edb_ok, c, c.capacity))
        × (extract_reply_msg
              (receive c (16 + length (reply_text lib o)) rest room)
              rtn
              count
              true
              old
            ≡ (edb_ok, code, reply_count lib o, some 16))
        × HoldsAt
            ((receive c (16 + length (reply_text lib o)) rest room).bytes)
            16
            (reply_text lib o)
  unfolding extract_reply_msg
  reply-round_trip code o rest room rtn count old word ready fits_in =
      let size = 16 + length (reply_text lib o) in
      let few : reply_count lib o < 2 ^ 31 = reply_count_small lib o in
      let (c, m, run, stored, _) = reply-built code o ready in
      let (len, op, rtn_code, num, text) =
        reply_fields c m size (reply_count lib o) code (reply_text lib o) ready.total_small few word
          stored in
      let d = receive c size rest room in
      let got = receive-IsReceived c size rest room fits_in in
      (
        c,
        run,
        rw (
          good_header d size 16 op_reply (received_field c d size 0 got (omega arith) ∙ len)
              (received_field c d size 4 got (omega arith) ∙ op) (omega arith) ready.total_small,
          received_field c d size 8 got (omega arith) ∙ rtn_code,
          received_field c d size 12 got (omega arith) ∙ num,
        ),
        HoldsAt-agree c.bytes d.bytes 16 (reply_text lib o)
            (λ i lo hi. got.agree i (omega arith) hi) text,
      )
