-- ===== src/Msg/Build.antt =====
-- The builders of msg/msg.cpp, with the message structures of include/msg.hpp at their offsets. A
-- write past the buffer is a fault. Every builder gives its code, the buffer, and *pSize.
use edbc.Base.{
  ℕ, ◌+◌, ◌%◌, ◌^◌, Option, none, some, List, [], ◌∷◌, ◌++◌, leb, if◌then◌else◌, length,
}
use edbc.Base.Outcome.{Outcome, returns, fault, ◌>>=◌, Rc, is_ok}
use edbc.Base.Outcome.Rc.{edb_ok}
use edbc.Base.Bytes.{Bytes}
use edbc.Base.Memory.{Memory, store32, store_bytes}
use edbc.Base.Json.{JsonLib}
use edbc.Msg.Buffer.{Buffer, Allocator, check_buffer}

abbrev pub op_reply : ℕ
op_reply = 1

abbrev pub op_insert : ℕ
op_insert = 2

abbrev pub op_delete : ℕ
op_delete = 3

abbrev pub op_query : ℕ
op_query = 4

abbrev pub op_command : ℕ
op_command = 5

abbrev pub op_disconnect : ℕ
op_disconnect = 6

abbrev pub op_connect : ℕ
op_connect = 7

abbrev pub op_snapshot : ℕ
op_snapshot = 8

-- MsgHeader: msgLen_ at 0, opCode_ at 4. MsgReply: rtnCode_ at 8, numRecords_ at 12, data_ at 16.
-- MsgInsert: numRecords_ at 8, data_ at 12. MsgDelete and MsgQuery: key_ at 8. MsgCommand:
-- numArgs_ at 8, data_ at 12.
abbrev pub msg_header_size : ℕ
msg_header_size = 8

abbrev pub msg_reply_size : ℕ
msg_reply_size = 16

abbrev pub msg_insert_size : ℕ
msg_insert_size = 12

abbrev pub msg_delete_size : ℕ
msg_delete_size = 8

abbrev pub msg_query_size : ℕ
msg_query_size = 8

abbrev pub msg_command_size : ℕ
msg_command_size = 12

-- The code after checkBuffer: the stores, if the buffer takes `total` bytes.
abbrev pub after_check : ℕ → (Memory → Memory) → Rc × Buffer × ℕ → Outcome (Rc × Buffer × ℕ)
after_check total stores (rc, b, size) =
    if is_ok rc
    then (if leb total b.capacity
        then returns (edb_ok, record b { bytes = stores b.bytes }, size)
        else fault)
    else returns (rc, b, size)

-- The bytes of all the dumps, in order.
unfoldable pub dump_all : (lib : JsonLib) → List lib.Json → Bytes
dump_all lib [] = []
dump_all lib (j ∷ js) = lib.dump j ++ dump_all lib js

-- What a reply carries: its returned object, if there is one, and their number.
abbrev pub reply_text : (lib : JsonLib) → Option lib.Json → Bytes
reply_text lib none = []
reply_text lib (some j) = lib.dump j

abbrev pub reply_count : (lib : JsonLib) → Option lib.Json → ℕ
reply_count lib none = 0
reply_count lib (some j) = 1

module _ (lib : JsonLib) (alloc : Allocator) where
  open lib use {Json, dump}

  unfoldable pub build_reply_msg : Buffer → ℕ → ℕ → Option Json → Outcome (Rc × Buffer × ℕ)
  build_reply_msg b p_size rtn_code rtn_json =
      let text : Bytes = reply_text lib rtn_json in
      let count : ℕ = reply_count lib rtn_json in
      let size = (msg_reply_size + length text) % 2 ^ 32 in
      check_buffer alloc b p_size size
      >>= after_check (msg_reply_size + length text) (λ m.
        store_bytes (store32 (store32 (store32 (store32 m 4 op_reply) 0 size) 12 count) 8 rtn_code)
          16 text)

  unfoldable pub build_insert_msg : Buffer → ℕ → Json → Outcome (Rc × Buffer × ℕ)
  build_insert_msg b p_size j =
      let text = dump j in
      let size = (msg_insert_size + length text) % 2 ^ 32 in
      check_buffer alloc b p_size size
      >>= after_check (msg_insert_size + length text)
          (λ m. store_bytes (store32 (store32 (store32 m 0 size) 4 op_insert) 8 1) 12 text)

  -- The builder for a vector of records: pMsg is still null when it is written through.
  unfoldable pub build_insert_msg_all : Buffer → ℕ → List Json → Outcome (Rc × Buffer × ℕ)
  build_insert_msg_all b p_size js =
      let size = (msg_insert_size + length (dump_all lib js)) % 2 ^ 32 in
      check_buffer alloc b p_size size >>= (λ r. if is_ok r.0 then fault else returns r)

  unfoldable pub build_delete_msg : Buffer → ℕ → Json → Outcome (Rc × Buffer × ℕ)
  build_delete_msg b p_size j =
      let text = dump j in
      let size = (msg_delete_size + length text) % 2 ^ 32 in
      check_buffer alloc b p_size size
      >>= after_check (msg_delete_size + length text)
          (λ m. store_bytes (store32 (store32 m 0 size) 4 op_delete) 8 text)

  unfoldable pub build_query_msg : Buffer → ℕ → Json → Outcome (Rc × Buffer × ℕ)
  build_query_msg b p_size j =
      let text = dump j in
      let size = (msg_query_size + length text) % 2 ^ 32 in
      check_buffer alloc b p_size size
      >>= after_check (msg_query_size + length text)
          (λ m. store_bytes (store32 (store32 m 0 size) 4 op_query) 8 text)

  unfoldable pub build_command_msg : Buffer → ℕ → Json → Outcome (Rc × Buffer × ℕ)
  build_command_msg b p_size j =
      let text = dump j in
      let size = (msg_command_size + length text) % 2 ^ 32 in
      check_buffer alloc b p_size size
      >>= after_check (msg_command_size + length text)
          (λ m. store_bytes (store32 (store32 (store32 m 0 size) 4 op_command) 8 1) 12 text)

  -- The builder for a vector: the texts stand one behind the other.
  unfoldable pub build_command_msg_all : Buffer → ℕ → List Json → Outcome (Rc × Buffer × ℕ)
  build_command_msg_all b p_size js =
      let text = dump_all lib js in
      let size = (msg_command_size + length text) % 2 ^ 32 in
      check_buffer alloc b p_size size
      >>= after_check (msg_command_size + length text) (λ m.
        store_bytes (store32 (store32 (store32 m 0 size) 4 op_command) 8 (length js % 2 ^ 32)) 12
          text)
