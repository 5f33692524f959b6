-- ===== src/Agent/Request.antt =====
-- pmdProcessAgentRequest and ossRoundUptoMultipleX (pmd/pmdAgent.cpp).
use edbc.Base.{
  ℕ, ◌+◌, ◌-◌, ◌%◌, ◌^◌, Bool, true, not, ◌&&◌, ◌||◌, Option, none, some, ◌==◌, if◌then◌else◌,
}
use edbc.Base.Outcome.{Outcome, returns, throws, blocked, fault, starved, ◌>>=◌, Rc, is_ok, rc_word}
use edbc.Base.Outcome.Rc.{edb_ok, edb_invalid_argument, edb_record_id_not_exist}
use edbc.Base.Latch.{reading}
use edbc.Base.Bytes.{Bytes}
use edbc.Base.Memory.{load32}
use edbc.Base.Json.{JsonLib}
use edbc.Ixm.Bucket.{Rid}
use edbc.Dms.File.{Os}
use edbc.Msg.Buffer.{Buffer, Allocator, slt, is_negative}
use edbc.Msg.Build.{
  op_insert, op_delete, op_query, op_disconnect, op_snapshot, msg_header_size, build_reply_msg,
}
use edbc.Msg.Extract.{parse_at, extract_insert_msg, extract_delete_msg, extract_query_msg}
use edbc.Rtn.Methods.{Rtn, rtn_insert, rtn_find, rtn_remove}

-- Two's complement: the absolute value, -a, and whether a + b is no int.
abbrev pub magnitude : ℕ → ℕ
magnitude a = if is_negative a then 2 ^ 32 - a else a

abbrev pub negated : ℕ → ℕ
negated a = (2 ^ 32 - a) % 2 ^ 32

abbrev pub add_overflows : ℕ → ℕ → Bool
add_overflows a b =
    if is_negative a
    then is_negative b && not (is_negative ((a + b) % 2 ^ 32))
    else not (is_negative b) && is_negative ((a + b) % 2 ^ 32)

-- (x + y - 1 - (x + y - 1) % y), of ints: an overflow, the remainder by 0 and that of the least
-- int by -1 are undefined, and a remainder has the sign of what is divided.
unfoldable pub oss_round_upto_multiple_x : ℕ → ℕ → Outcome ℕ
oss_round_upto_multiple_x x y =
    let s = (x + y) % 2 ^ 32 in
    let n = (s + (2 ^ 32 - 1)) % 2 ^ 32 in
    let k = magnitude n - magnitude n % magnitude y in
    if add_overflows x y || s == 2 ^ 31
    then fault
    else if y == 0 || (n == 2 ^ 31 && y == 2 ^ 32 - 1)
    then fault
    else returns (if is_negative n then negated k else k)

-- What the code has outside of the request: the file system, the retries of an insert, the null
-- object, the counters of a snapshot, and the RID that is not initialized.
pub record Context (lib : JsonLib) : Type 0 where
  pub os : Os
  pub fuel : ℕ
  pub null_json : lib.Json
  pub snapshot : lib.Json
  pub rid : Rid

module _ (lib : JsonLib) (hash_fn : Bytes → ℕ) (ctx : Context lib) where
  open lib use {Json, id_field}

  -- `catch (std::exception& ex)`, with the state that the exception leaves.
  abbrev pub catching : Json → Rtn → Outcome ((Rc × Json) × Rtn) → Outcome ((Rc × Json) × Rtn)
  catching row s (returns a) = returns a
  catching row s throws = returns ((edb_invalid_argument, row), s)
  catching row s blocked = blocked
  catching row s fault = fault
  catching row s starved = starved

  -- The test that all three handlers make of the record.
  abbrev pub with_id : Rtn → Json → Outcome ((Rc × Json) × Rtn) → Outcome ((Rc × Json) × Rtn)
  with_id s r go = elim (id_field r) [
    | none ↦ returns ((edb_record_id_not_exist, ctx.null_json), s)
    | some _ ↦ go
  ]

  unfoldable pub handle_insert : Buffer → Rtn → Outcome ((Rc × Json) × Rtn)
  handle_insert b s = do
    (rc, count, obj) ← extract_insert_msg b 0 true none
    if is_ok rc
        then (do
          r ← parse_at lib b 12
          with_id s r (do
            (rc', s') ← rtn_insert lib hash_fn ctx.os ctx.fuel s r ctx.null_json ctx.rid
            returns ((rc', ctx.null_json), s')))
        else returns ((edb_invalid_argument, ctx.null_json), s)

  -- An exception in find leaves the read latch taken.
  unfoldable pub handle_query : Buffer → Rtn → Outcome ((Rc × Json) × Rtn)
  handle_query b s = do
    (rc, r) ← extract_query_msg lib b ctx.null_json
    if is_ok rc
        then with_id s r (
            catching ctx.null_json
              (record s { file = record (s.file) { rw_mutex = reading s.file.rw_mutex } })
              (do
                (rc', row, s') ← rtn_find lib hash_fn s r ctx.null_json ctx.rid
                returns ((rc', row), s')))
        else returns ((edb_invalid_argument, ctx.null_json), s)

  unfoldable pub handle_delete : Buffer → Rtn → Outcome ((Rc × Json) × Rtn)
  handle_delete b s = do
    (rc, r) ← extract_delete_msg lib b ctx.null_json
    if is_ok rc
        then with_id s r
            (do (rc', s') ← rtn_remove lib hash_fn s r ctx.rid; returns ((rc', ctx.null_json), s'))
        else returns ((edb_invalid_argument, ctx.null_json), s)

  -- The code and rtnObj at `done:`.
  unfoldable pub handle : Buffer → Rtn → Outcome ((Rc × Json) × Rtn)
  handle b s =
      let op = load32 b.bytes 4 in
      let refused : Outcome ((Rc × Json) × Rtn) =
        returns ((edb_invalid_argument, ctx.null_json), s) in
      if slt (load32 b.bytes 0) msg_header_size
      then refused
      else if op == op_insert
      then catching ctx.null_json s (handle_insert b s)
      else if op == op_query
      then catching ctx.null_json s (handle_query b s)
      else if op == op_delete
      then catching ctx.null_json s (handle_delete b s)
      else if op == op_snapshot
      then returns ((edb_ok, ctx.snapshot), s)
      else if op == op_disconnect
      then returns ((edb_ok, ctx.null_json), s)
      else refused

  -- What the reply carries, by the code of the operation.
  abbrev pub reply_object : ℕ → Json → Option Json
  reply_object op row =
      if op == op_query then some row else if op == op_snapshot then some row else none

  -- The code, the send buffer and its size, and the state. *disconnect is always left false.
  unfoldable pub process_request :
      Allocator → Buffer → Buffer → ℕ → Rtn → Outcome (Rc × (Buffer × ℕ) × Rtn)
  process_request alloc b send snd_size s = do
    ((rc, row), s') ← handle b s
    (_, send', snd_size') ←
        build_reply_msg lib alloc send snd_size (rc_word rc) (reply_object (load32 b.bytes 4) row)
    returns (rc, (send', snd_size'), s')
