-- ===== src/Msg/Buffer.antt =====
-- A message buffer and MsgBuilder::checkBuffer (msg/msg.cpp). An `int` is a 32-bit word.
use edbc.Base.{ℕ, true, ◌+◌, ◌%◌, ◌^◌, Bool, not, ltb, leb, ◌==◌, if◌then◌else◌}
use edbc.Base.Outcome.{Outcome, returns, fault, Rc}
use edbc.Base.Outcome.Rc.{edb_ok, edb_invalid_argument, edb_oom}
use edbc.Base.Memory.{Memory}

-- `capacity` bytes are allocated. `heap` is false for an array inside an object. (A buffer of
-- new[], as the agent's, is a heap block too: the two allocators are one in the C library.)
pub record Buffer : Type 0 where
  pub bytes : Memory
  pub capacity : ℕ
  pub heap : Bool

-- What realloc answers: whether a block of this size can be had, and the bytes past the old ones.
pub record Allocator : Type 0 where
  pub grants : ℕ → Bool
  pub fresh : Memory

-- Two's complement: a < b, and a < 0.
abbrev pub slt : ℕ → ℕ → Bool
slt a b = ltb ((a + 2 ^ 31) % 2 ^ 32) ((b + 2 ^ 31) % 2 ^ 32)

abbrev pub is_negative : ℕ → Bool
is_negative a = leb (2 ^ 31) a

unfoldable pub realloc : Allocator → Buffer → ℕ → Buffer
realloc alloc b len = record b {
  bytes = λ i. if ltb i b.capacity then b.bytes i else alloc.fresh i;
  capacity = len;
}

-- checkBuffer: the code, the buffer, and *pSize.
unfoldable pub check_buffer : Allocator → Buffer → ℕ → ℕ → Outcome (Rc × Buffer × ℕ)
check_buffer alloc b size len =
    if slt size len
    then if is_negative len
      then returns (edb_invalid_argument, b, size)
      else if not b.heap
      then fault
      else if alloc.grants len
      then returns (edb_ok, realloc alloc b len, len)
      else returns (edb_oom, b, size)
    else returns (edb_ok, b, size)

-- The message after its way: the bytes that were sent, a NUL behind them, and what stood in the
-- receiver's buffer before.
unfoldable pub receive : Buffer → ℕ → Memory → ℕ → Buffer
receive c total rest room = record {
  bytes = λ i. if ltb i total then c.bytes i else if i == total then 0 else rest i;
  capacity = room;
  heap = true;
}
