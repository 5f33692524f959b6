-- ===== src/Msg/RoundTrip.antt =====
-- MsgBuilder's builders against its extractors (msg/msg.cpp), with the bytes sent and received in
-- between.
use edbc.Base.{
  ℕ, ◌+◌, ◌-◌, ◌%◌, ◌^◌, ◌≤◌, ◌<◌, ◌≡◌, refl, ◌∙◌, inl, inr, true, false, length, ltb, Bool-cases,
  le→leb, arith,
}
use edbc.Base.Outcome.{returns, ◌>>=◌}
use edbc.Base.Outcome.Rc.{edb_ok}
use edbc.Base.Bytes.{Bytes}
use edbc.Base.Memory.{
  Memory, store32, load32, store_bytes, HoldsAt, AgreeOn, store_bytes-outside, store_bytes-HoldsAt,
  load32-store32, load32_agree, load32-outside, HoldsAt-agree, c_string-text,
}
use edbc.Base.Json.{JsonLib}
use edbc.Msg.Buffer.{Buffer, Allocator, slt, realloc, check_buffer, receive}
use edbc.Msg.Build.{op_delete, op_query, after_check, build_delete_msg, build_query_msg}
use edbc.Msg.Extract.{bad_header, parse_at, extract_delete_msg, extract_query_msg}

-- A heap buffer whose size the caller keeps, and a request that the allocator grants.
pub record IsReady (alloc : Allocator) (b : Buffer) (p_size total : ℕ) : Type 0 where
  pub heap : b.heap ≡ true
  pub sized : p_size ≡ b.capacity
  pub small : b.capacity < 2 ^ 31
  pub total_small : total < 2 ^ 31
  pub granted : alloc.grants total ≡ true

-- The first `total` bytes of b have come into c, with a NUL behind them.
pub record IsReceived (b c : Buffer) (total : ℕ) : Type 0 where
  pub agree : AgreeOn 0 total b.bytes c.bytes
  pub nul : c.bytes total ≡ 0
  pub room : total < c.capacity

slt_small : (a b : ℕ) → a < 2 ^ 31 → b < 2 ^ 31 → slt a b ≡ ltb a b
slt_small a b h k = ground arith

pub receive-IsReceived :
    (c : Buffer) (total : ℕ) (rest : Memory) (room : ℕ)
    → total < room
    → IsReceived c (receive c total rest room) total
unfolding receive
receive-IsReceived c total rest room h = record {
  agree = λ i lo hi. ground arith;
  nul = ground arith;
  room = h;
}

-- A buffer that is ready takes the message.
pub check_buffer-fits :
    (alloc : Allocator) (b : Buffer) (p_size total : ℕ)
    → IsReady alloc b p_size total
    → (c : Buffer) × (check_buffer alloc b p_size total ≡ returns (edb_ok, c, c.capacity))
      × (total ≤ c.capacity)
unfolding check_buffer realloc
check_buffer-fits alloc b p_size total h =
    let less = slt_small p_size total (rw h.sized h.small) h.total_small in
    elim (Bool-cases (ltb p_size total)) [
      | inl t ↦ (
        realloc alloc b total,
        rw (less, t, h.heap, h.granted) (unfold realloc in ground (arith, h.total_small)),
        unfold realloc in omega arith,
      )
      | inr t ↦ (b, rw (less, t) (rw h.sized), ground (arith, h.sized))
    ]

-- The stores of a message that is checked and fits.
pub built :
    (alloc : Allocator) (b : Buffer) (p_size total : ℕ) (stores : Memory → Memory)
    → IsReady alloc b p_size total
    → (c : Buffer) × (m : Memory) × (check_buffer alloc b p_size total >>= after_check total stores
        ≡ returns (edb_ok, c, c.capacity))
      × (c.bytes ≡ stores m)
      × (total ≤ c.capacity)
built alloc b p_size total stores h =
    let (c, run, fits) = check_buffer-fits alloc b p_size total h in
    (
      record c { bytes = stores c.bytes },
      c.bytes,
      rw (run, le→leb total c.capacity fits),
      refl,
      fits,
    )

-- A field before the bytes that are copied.
pub load32-before :
    (m : Memory) (a b : ℕ) (bs : Bytes) → b + 4 ≤ a → load32 (store_bytes m a bs) b ≡ load32 m b
load32-before m a b bs h =
    load32_agree m (store_bytes m a bs) b (λ i lo hi. store_bytes-outside m a bs i (omega arith))

pub cut : (n : ℕ) → n < 2 ^ 31 → n % 2 ^ 32 ≡ n
cut n h = omega arith

-- A header that has the length and the code of the operation.
pub good_header :
    (b : Buffer) (size min_len op : ℕ)
    → load32 b.bytes 0 ≡ size
    → load32 b.bytes 4 ≡ op
    → min_len ≤ size
    → size < 2 ^ 31
    → bad_header b min_len op ≡ false
good_header b size min_len op e f low high = rw (e, f) (ground (arith, low, high))

pub received_field :
    (b c : Buffer) (total a : ℕ)
    → IsReceived b c total
    → a + 4 ≤ total
    → load32 c.bytes a ≡ load32 b.bytes a
received_field b c total a h low =
    load32_agree b.bytes c.bytes a (λ i lo hi. h.agree i (omega arith) (omega arith))

module _ (lib : JsonLib) where
  open lib use {Json, dump, parse}

  -- The text of a received message is parsed back.
  pub parse_at-received :
      (b c : Buffer) (off : ℕ) (j : Json)
      → IsReceived b c (off + length (dump j))
      → HoldsAt b.bytes off (dump j)
      → parse_at lib c off ≡ returns j
  unfolding parse_at
  parse_at-received b c off j h t =
      let held =
        HoldsAt-agree b.bytes c.bytes off (dump j) (λ i lo hi. h.agree i (omega arith) hi) t in
      rw (
        parse_at,
        c_string-text (c.capacity - off) c.bytes off (dump j) (lib.dump-IsText j) held h.nul
            (omega (arith, h.room)),
        lib.parse-dump j,
      )

  -- The two messages with a key, by their code.
  pub key_message :
      (c : Buffer) (m : Memory) (size op : ℕ) (j : Json)
      → size < 2 ^ 31
      → op < 2 ^ 31
      → c.bytes ≡ store_bytes (store32 (store32 m 0 size) 4 op) 8 (dump j)
      → (load32 c.bytes 0 ≡ size) × (load32 c.bytes 4 ≡ op) × HoldsAt c.bytes 8 (dump j)
  key_message c m size op j small code e = rw e (
    load32-before _ 8 0 (dump j) (omega arith)
        ∙ load32-outside (store32 m 0 size) 4 op 0 (omega arith)
        ∙ load32-store32 m 0 size (omega arith),
    load32-before _ 8 4 (dump j) (omega arith)
        ∙ load32-store32 (store32 m 0 size) 4 op (omega arith),
    store_bytes-HoldsAt _ 8 (dump j),
  )

  -- A query message that is received whole with a NUL behind it gives back the key.
  pub query-extracted :
      (j : Json) (c : Buffer) (m rest : Memory) (room : ℕ) (old : Json)
      → 8 + length (dump j) < 2 ^ 31
      → c.bytes ≡ store_bytes (store32 (store32 m 0 (8 + length (dump j))) 4 op_query) 8 (dump j)
      → 8 + length (dump j) < room
      → extract_query_msg lib (receive c (8 + length (dump j)) rest room) old ≡ returns (edb_ok, j)
  unfolding extract_query_msg
  query-extracted j c m rest room old small stored fits_in =
      let size = 8 + length (dump j) in
      let (len, code, text) = key_message c m size op_query j small (omega arith) stored in
      let d = receive c size rest room in
      let got = receive-IsReceived c size rest room fits_in in
      rw (
        good_header d size 8 op_query (received_field c d size 0 got (omega arith) ∙ len)
            (received_field c d size 4 got (omega arith) ∙ code) (omega arith) small,
        parse_at-received c d 8 j got text,
      )

  -- A delete message that is received whole with a NUL behind it gives back the key.
  pub delete-extracted :
      (j : Json) (c : Buffer) (m rest : Memory) (room : ℕ) (old : Json)
      → 8 + length (dump j) < 2 ^ 31
      → c.bytes ≡ store_bytes (store32 (store32 m 0 (8 + length (dump j))) 4 op_delete) 8 (dump j)
      → 8 + length (dump j) < room
      → extract_delete_msg lib (receive c (8 + length (dump j)) rest room) old ≡ returns (edb_ok, j)
  unfolding extract_delete_msg
  delete-extracted j c m rest room old small stored fits_in =
      let size = 8 + length (dump j) in
      let (len, code, text) = key_message c m size op_delete j small (omega arith) stored in
      let d = receive c size rest room in
      let got = receive-IsReceived c size rest room fits_in in
      rw (
        good_header d size 8 op_delete (received_field c d size 0 got (omega arith) ∙ len)
            (received_field c d size 4 got (omega arith) ∙ code) (omega arith) small,
        parse_at-received c d 8 j got text,
      )

  module _ (alloc : Allocator) (b : Buffer) (p_size : ℕ) (j : Json) where
    module _ (ready : IsReady alloc b p_size (8 + length (dump j))) where
      -- A query message that is built into a ready buffer, and received whole with a NUL behind
      -- it, gives back the key: buildQueryMsg returns EDB_OK, and extractQueryMsg returns EDB_OK
      -- and the key.
      pub query-round_trip :
          (rest : Memory) (room : ℕ) (old : Json)
          → 8 + length (dump j) < room
          → (c : Buffer) × (build_query_msg lib alloc b p_size j ≡ returns (edb_ok, c, c.capacity))
            × (extract_query_msg lib (receive c (8 + length (dump j)) rest room) old
                ≡ returns (edb_ok, j))
      unfolding build_query_msg
      query-round_trip rest room old fits_in =
          let size = 8 + length (dump j) in
          let (c, m, run, stored, fits) =
            built alloc b p_size size
              (λ m. store_bytes (store32 (store32 m 0 size) 4 op_query) 8 (dump j)) ready in
          (
            c,
            rw (cut size ready.total_small) run,
            query-extracted j c m rest room old ready.total_small stored fits_in,
          )

      -- A delete message that is built into a ready buffer, and received whole with a NUL behind
      -- it, gives back the key: buildDeleteMsg returns EDB_OK, and extractDeleteMsg returns EDB_OK
      -- and the key.
      pub delete-round_trip :
          (rest : Memory) (room : ℕ) (old : Json)
          → 8 + length (dump j) < room
          → (c : Buffer) × (build_delete_msg lib alloc b p_size j ≡ returns (edb_ok, c, c.capacity))
            × (extract_delete_msg lib (receive c (8 + length (dump j)) rest room) old
                ≡ returns (edb_ok, j))
      unfolding build_delete_msg
      delete-round_trip rest room old fits_in =
          let size = 8 + length (dump j) in
          let (c, m, run, stored, fits) =
            built alloc b p_size size
              (λ m. store_bytes (store32 (store32 m 0 size) 4 op_delete) 8 (dump j)) ready in
          (
            c,
            rw (cut size ready.total_small) run,
            delete-extracted j c m rest room old ready.total_small stored fits_in,
          )
