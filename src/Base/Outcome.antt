-- ===== src/Base/Outcome.antt =====
-- How a call of the C++ code ends, and the return codes of include/common.hpp.
use Prim.Native.Nat.{ℕ, ◌-◌, ◌%◌, ◌^◌}
use mathlib.Core.Bool.{Bool, true, false}
use mathlib.Core.Path.{◌≡◌, refl}

-- `throws`: a C++ exception leaves the call. `blocked`: the caller waits for a latch that is not
-- released. `fault`: undefined behaviour. `starved`: the given number of rounds was used up.
pub data Outcome {ℓ} (A : Type ℓ) : Type ℓ where
  returns : A → Outcome A
  throws : Outcome A
  blocked : Outcome A
  fault : Outcome A
  starved : Outcome A

infixl 5 ◌>>=◌
abbrev pub ◌>>=◌ {ℓ κ} : {A : Type ℓ} {B : Type κ} → Outcome A → (A → Outcome B) → Outcome B
returns a >>= f = f a
throws >>= f = throws
blocked >>= f = blocked
fault >>= f = fault
starved >>= f = starved

-- Inversion of a call that returns.
pub >>=-eq-returns {ℓ κ} :
    {A : Type ℓ} {B : Type κ} (m : Outcome A) (f : A → Outcome B) {b : B}
    → (m >>= f) ≡ returns b
    → (a : A) × (m ≡ returns a) × (f a ≡ returns b)
>>=-eq-returns (returns a) f h = (a, refl, h)
>>=-eq-returns throws f h = cc
>>=-eq-returns blocked f h = cc
>>=-eq-returns fault f h = cc
>>=-eq-returns starved f h = cc

-- The integer constants EDB_*; `os_error` is another value of the variable, an `errno` or what a
-- system call answered.
pub data Rc : Type 0 where
  edb_ok edb_io edb_invalidarg edb_network edb_timeout edb_network_close : Rc
  edb_recv_data_length_error edb_invalid_record ebd_msg_build_failed : Rc
  edb_sock_init_failed edb_sock_connect_failed edb_sock_not_connected : Rc
  edb_sys edb_app_forced edb_force_system_edu_error edb_stopservice_error : Rc
  edb_invalid_argument edb_edu_invalid_status edb_oom edb_perm : Rc
  edb_pmd_help_only edb_record_id_not_exist edb_index_exist : Rc
  os_error : ℕ → Rc

-- `if (rc)` in C++ is the test that this fails.
abbrev pub is_ok : Rc → Bool
is_ok edb_ok = true
is_ok _ = false

-- The value of a code as a 32-bit word: the constants are negative.
abbrev pub rc_word : Rc → ℕ
rc_word edb_ok = 0
rc_word edb_io = 2 ^ 32 - 1
rc_word edb_invalidarg = 2 ^ 32 - 2
rc_word edb_network = 2 ^ 32 - 3
rc_word edb_timeout = 2 ^ 32 - 4
rc_word edb_network_close = 2 ^ 32 - 5
rc_word edb_recv_data_length_error = 2 ^ 32 - 6
rc_word edb_invalid_record = 2 ^ 32 - 7
rc_word ebd_msg_build_failed = 2 ^ 32 - 8
rc_word edb_sock_init_failed = 2 ^ 32 - 9
rc_word edb_sock_connect_failed = 2 ^ 32 - 10
rc_word edb_sock_not_connected = 2 ^ 32 - 11
rc_word edb_sys = 2 ^ 32 - 12
rc_word edb_app_forced = 2 ^ 32 - 13
rc_word edb_force_system_edu_error = 2 ^ 32 - 14
rc_word edb_stopservice_error = 2 ^ 32 - 15
rc_word edb_invalid_argument = 2 ^ 32 - 16
rc_word edb_edu_invalid_status = 2 ^ 32 - 17
rc_word edb_oom = 2 ^ 32 - 18
rc_word edb_perm = 2 ^ 32 - 19
rc_word edb_pmd_help_only = 2 ^ 32 - 20
rc_word edb_record_id_not_exist = 2 ^ 32 - 21
rc_word edb_index_exist = 2 ^ 32 - 22
rc_word (os_error n) = n % 2 ^ 32
