-- ===== src/Oss/File.antt =====
-- ossFileOp (include/ossFileOp.hpp, oss/ossFileOp.cpp). The answers of the system calls are
-- arguments; the answers of write are those of a socket's send.
use edbc.Base.{
  ℕ, ◌%◌, ◌/◌, ◌^◌, Bool, true, false, not, ◌&&◌, Option, none, some, List, [], ◌∷◌, ◌++◌, length,
  take, drop, ◌==◌, if◌then◌else◌,
}
use edbc.Base.Outcome.{Outcome, returns, blocked, ◌>>=◌, Rc}
use edbc.Base.Outcome.Rc.{os_error, edb_ok}
use edbc.Base.Bytes.{Bytes}
use edbc.Oss.Socket.{Acceptance, takes, refuses, Arrival, arrives, fails}

-- fd_, where `none` is OSS_INVALID_HANDLE_FD_VALUE, and isStdout_.
pub record FileOp : Type 0 where
  pub fd : Option ℕ
  pub is_stdout : Bool

abbrev pub new_file_op : FileOp
new_file_op = record { fd = none; is_stdout = false }

unfoldable pub is_valid : FileOp → Bool
is_valid f = elim (f.fd) [ none ↦ false | some _ ↦ true ]

unfoldable pub close_file : FileOp → FileOp
unfolding is_valid
close_file f = if is_valid f && not f.is_stdout then record f { fd = none } else f

abbrev pub open_stdout : FileOp → FileOp
open_stdout f = record { fd = some 1; is_stdout = true }

-- The flags of open(2).
pub record Mode : Type 0 where
  pub read_only : Bool
  pub write_only : Bool
  pub creat : Bool
  pub trunc : Bool

abbrev pub has_option : ℕ → ℕ → Bool
has_option options bit = options / bit % 2 == 1

unfoldable pub open_mode : ℕ → Mode
open_mode options = record {
  read_only = has_option options 2;
  write_only = not (has_option options 2) && has_option options 4;
  creat = not (has_option options 8) && has_option options 16;
  trunc = has_option options 32;
}

-- open, by the descriptor that open(2) gives or its errno. The loop asks whether the descriptor
-- is EINTR, which -1 is not, so that there is one call.
unfoldable pub open_file : Option ℕ → ℕ → FileOp → Rc × FileOp
open_file none errno f = (os_error errno, record f { fd = none })
open_file (some fd) errno f = (edb_ok, record f { fd = some fd })

-- read: the code and the bytes, whose number is *readSizeActullay. There is one call, as in open.
unfoldable pub read_file : FileOp → ℕ → Arrival → ℕ → Rc × Bytes
read_file f size answer errno =
    if not (is_valid f)
    then (os_error errno, [])
    else elim answer [ arrives bs ↦ (edb_ok, take size bs) | fails e ↦ (os_error e, []) ]

-- The loop of write, over the answers: the code, what was written, and the answers left.
unfoldable pub write_loop : List Acceptance → Bytes → Outcome (Rc × Bytes × List Acceptance)
write_loop [] msg = blocked
write_loop (refuses e ∷ qs) msg = returns (os_error e, [], qs)
write_loop (takes n ∷ qs) msg =
    let more = (do
      (rc, written, qs') ← write_loop qs (drop n msg)
      returns (rc, take n msg ++ written, qs')) in
    if length (drop n msg) == 0 then returns (edb_ok, take n msg, qs) else more

-- write, of `len` bytes, or of the text at `buf` where `len` is 0. An invalid handle is no error.
unfoldable pub write_file :
    FileOp → Bytes → List Acceptance → Outcome (Rc × Bytes × List Acceptance)
write_file f msg qs = if is_valid f then write_loop qs msg else returns (edb_ok, [], qs)

-- getFileSize and offset, by the st_size of fstat or its errno: the code and the size, which is
-- cut to an unsigned int.
unfoldable pub get_file_size : Option ℕ → ℕ → Rc × ℕ
get_file_size none errno = (os_error errno, 0)
get_file_size (some st_size) errno = (edb_ok, st_size % 2 ^ 32)
