-- ===== src/Client/Query.antt =====
-- QueryCommand of the client (client/command.cpp): the order goes out, and the record that comes
-- back is printed.
use edbc.Base.{
  ℕ, suc, ◌+◌, ◌-◌, ◌%◌, ◌^◌, ◌≤◌, ◌<◌, ◌≡◌, refl, ◌∙◌, true, false, some, List, ◌∷◌, ◌++◌, length,
  le→leb, lt→ltb, arith,
}
use edbc.Base.Outcome.{returns}
use edbc.Base.Outcome.Rc.{edb_ok}
use edbc.Base.Bytes.{Bytes}
use edbc.Base.Memory.{
  Memory, load32, store32, store_bytes, read_bytes, HoldsAt, HoldsAt-agree, load32_agree,
  c_string-text,
}
use edbc.Base.Json.{JsonLib}
use edbc.Msg.Buffer.{Allocator, slt, check_buffer}
use edbc.Msg.Build.{op_query, build_query_msg}
use edbc.Msg.RoundTrip.{key_message}
use edbc.Oss.Socket.{Poll, Socket}
use edbc.Oss.Recv.{settle, stream}
use edbc.Oss.Send.{Accepts}
use edbc.Client.Command.{
  Client, zeroed, order_buffer, client_buf_size, reply_json, handle_query_reply, query_command,
}
use edbc.Client.Order.{execute-handles}
use edbc.Client.Receive.{IsReply, chosen, reply_memory, reply_memory-is}

module _ (lib : JsonLib) where
  open lib use {Json, dump, parse}

  -- The bytes of a message with a key in the client's array.
  abbrev pub key_order : ℕ → Json → Memory
  key_order op key =
      store_bytes (store32 (store32 zeroed 0 (8 + length (dump key))) 4 op) 8 (dump key)

  abbrev pub query_order : Json → Memory
  query_order key = key_order op_query key

  -- A reply with code 0 and one record.
  pub record Carries (j : Json) (r : Memory) : Type 0 where
    pub code : load32 r 8 ≡ 0
    pub one : load32 r 12 ≡ 1
    pub text : HoldsAt r 16 (dump j)

  pub order-made :
      (alloc : Allocator) (key : Json)
      → 8 + length (dump key) ≤ client_buf_size
      → build_query_msg lib alloc order_buffer client_buf_size key
        ≡ returns (edb_ok, record order_buffer { bytes = query_order key }, client_buf_size)
  unfolding build_query_msg check_buffer
  order-made alloc key fits =
      let whole : (8 + length (dump key)) % 2 ^ 32 ≡ 8 + length (dump key) = omega (arith, fits) in
      let over : slt client_buf_size (8 + length (dump key)) ≡ false = ground (arith, fits) in
      rw (whole, over, le→leb (8 + length (dump key)) client_buf_size fits) refl

  pub order-length :
      (op : ℕ) (key : Json)
      → op < 2 ^ 31
      → 8 + length (dump key) ≤ client_buf_size
      → load32 (key_order op key) 0 ≡ 8 + length (dump key)
  order-length op key code fits =
      (key_message lib (record order_buffer { bytes = key_order op key }) zeroed
        (8 + length (dump key)) op key (omega (arith, fits)) code refl).0

  -- The code of a reply that is received.
  pub code_received :
      (r : Memory) (total : ℕ) → 16 ≤ total → load32 r 8 ≡ 0 → load32 (reply_memory r total) 8 ≡ 0
  code_received r total long code =
      load32_agree r (reply_memory r total) 8 (λ i lo hi.
        reply_memory-is r total (omega arith) i
        ∙ chosen _ (lt→ltb i total (omega (arith, long, hi))) (r i) 0)
      ∙ code

  -- The reply's text is parsed, and is what is printed.
  pub reply-printed :
      (alloc : Allocator) (j : Json) (r : Memory)
      → Carries j r
      → 16 + length (dump j) < client_buf_size
      → handle_query_reply lib alloc (reply_memory r (16 + length (dump j))) ≡ returns (0, some j)
  unfolding handle_query_reply reply_json
  reply-printed alloc j r h small =
      let n = 16 + length (dump j) in
      let m = reply_memory r n in
      let same = λ (i : ℕ) (lo : i < n).
        reply_memory-is r n (omega arith) i ∙ chosen _ (lt→ltb i n lo) (r i) 0 in
      let code : load32 m 8 ≡ 0 = code_received r n (omega arith) h.code in
      let one : load32 m 12 ≡ 1 = load32_agree r m 12 (λ i lo hi. same i (omega arith)) ∙ h.one in
      let text = HoldsAt-agree r m 16 (dump j) (λ i lo hi. same i hi) h.text in
      let nul : m n ≡ 0 = reply_memory-is r n (omega arith) n ∙ ground arith in
      rw
        (
          reply_json,
          code,
          one,
          c_string-text (client_buf_size - 16) m 16 (dump j) (lib.dump-IsText j) text nul
              (omega (arith, small)),
          lib.parse-dump j,
        )
        refl

  -- The query command on a connection, for a key whose message fits the client's array, with an
  -- answer that comes in pieces of any size: the peer is given the query message, the record is
  -- printed, EDB_OK is returned, and what comes behind the reply is left.
  pub query_command-prints :
      (alloc : Allocator) (key j : Json) (json_str : Bytes) (args : List Bytes) (c : Client)
      (s : Socket) (r : Memory) (later : Bytes) (ps₀ ps₁ ps₂ : List Poll) (fuel : ℕ)
      → s.alive ≡ true
      → parse json_str ≡ some key
      → 8 + length (dump key) ≤ client_buf_size
      → settle s.polls ≡ some ps₀
      → settle ps₀ ≡ some ps₁
      → settle ps₁ ≡ some ps₂
      → Accepts (8 + length (dump key)) s.acceptances
      → IsReply r (16 + length (dump j)) s.arrivals later
      → Carries j r
      → (c' : Client) × (s' : Socket) × (query_command lib alloc (suc fuel) (json_str ∷ args) c s
          ≡ returns ((0, some j), c', s'))
        × (s'.sent ≡ s.sent ++ read_bytes (8 + length (dump key)) (query_order key) 0)
        × (stream s'.arrivals ≡ later)
  query_command-prints alloc key j json_str args c s r later ps₀ ps₁ ps₂ fuel alive parsed fits calm
        calm' calm'' accepted reply carries =
      execute-handles lib alloc (build_query_msg lib alloc) key (query_order key)
        (8 + length (dump key)) (order-made alloc key fits)
        (order-length op_query key (omega arith) fits) (omega arith) fits
        (handle_query_reply lib alloc) (0, some j) json_str args c s r _ later ps₀ ps₁ ps₂ fuel
        alive parsed calm calm' calm'' accepted reply (reply-printed alloc j r carries reply.fits)
