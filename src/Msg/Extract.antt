-- ===== src/Msg/Extract.antt =====
-- The extractors of msg/msg.cpp. A pointer into the message is its offset. The text of a query or
-- delete is read up to its NUL; if there is none in the buffer, the read is a fault.
use edbc.Base.{ℕ, ◌-◌, Bool, not, ◌||◌, Option, none, some, ◌==◌, if◌then◌else◌}
use edbc.Base.Outcome.{Outcome, returns, throws, fault, ◌>>=◌, Rc}
use edbc.Base.Outcome.Rc.{edb_ok, edb_invalid_argument}
use edbc.Base.Memory.{load32, c_string}
use edbc.Base.Json.{JsonLib}
use edbc.Msg.Buffer.{Buffer, slt}
use edbc.Msg.Build.{
  op_reply, op_insert, op_delete, op_query, op_command, msg_reply_size, msg_insert_size,
  msg_delete_size, msg_query_size, msg_command_size,
}

-- The two tests that every extractor begins with.
abbrev pub bad_header : Buffer → ℕ → ℕ → Bool
bad_header b min_len op = slt (load32 b.bytes 0) min_len || not (load32 b.bytes 4 == op)

-- The code, rtnCode, numRecords, and *ppObjStart (ppObjStart null or not).
unfoldable pub extract_reply_msg : Buffer → ℕ → ℕ → Bool → Option ℕ → Rc × ℕ × ℕ × Option ℕ
extract_reply_msg b rtn_code num_records wants_obj obj =
    if bad_header b msg_reply_size op_reply
    then (edb_invalid_argument, rtn_code, num_records, obj)
    else (edb_ok, load32 b.bytes 8, load32 b.bytes 12, if wants_obj then some 16 else obj)

-- The code, numRecords and *ppObj; with a null ppObj it writes through the null pointer.
unfoldable pub extract_insert_msg : Buffer → ℕ → Bool → Option ℕ → Outcome (Rc × ℕ × Option ℕ)
extract_insert_msg b num_records has_obj obj =
    if bad_header b msg_insert_size op_insert
    then returns (edb_invalid_argument, num_records, obj)
    else if has_obj
    then returns (edb_ok, load32 b.bytes 8, some 12)
    else fault

-- The code and *ppObj; numArgs is tested and not written.
unfoldable pub extract_command_msg : Buffer → ℕ → Option ℕ → Rc × ℕ × Option ℕ
extract_command_msg b num_args obj =
    if bad_header b msg_command_size op_command
    then (edb_invalid_argument, num_args, obj)
    else (edb_ok, num_args, if num_args == 0 then none else some 12)

module _ (lib : JsonLib) where
  open lib use {Json, parse}

  -- json::parse of the C string at an offset.
  unfoldable pub parse_at : Buffer → ℕ → Outcome Json
  parse_at b off = elim (c_string (b.capacity - off) b.bytes off) [
    | none ↦ fault
    | some text ↦ elim (parse text) [ none ↦ throws | some j ↦ returns j ]
  ]

  unfoldable pub extract_delete_msg : Buffer → Json → Outcome (Rc × Json)
  extract_delete_msg b obj =
      if bad_header b msg_delete_size op_delete
      then returns (edb_invalid_argument, obj)
      else parse_at b 8 >>= (λ j. returns (edb_ok, j))

  unfoldable pub extract_query_msg : Buffer → Json → Outcome (Rc × Json)
  extract_query_msg b obj =
      if bad_header b msg_query_size op_query
      then returns (edb_invalid_argument, obj)
      else parse_at b 8 >>= (λ j. returns (edb_ok, j))
