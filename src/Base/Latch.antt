-- ===== src/Base/Latch.antt =====
-- include/ossLatch.hpp: the read-write latch over pthread_rwlock_t, with its holders counted.
use edbc.Base.Tests.{ltb, ◌==◌, if◌then◌else◌}
use edbc.Base.Outcome.{Outcome, returns, blocked, fault}
use Prim.Native.Nat.{ℕ, ◌+◌, ◌-◌, ◌<◌}
use mathlib.Core.Path.{◌≡◌, refl}
use native.Mathlib.Omega.{arith}
use mathlib.Core.Bool.{Bool, true, false, ◌||◌}

pub record RwLatch : Type 0 where
  pub readers : ℕ
  pub writer : Bool

abbrev pub unlocked : RwLatch
unlocked = record { readers = 0; writer = false }

-- pthread_rwlock_wrlock waits for every holder.
unfoldable pub w_lock : RwLatch → Outcome RwLatch
w_lock l = if l.writer || ltb 0 l.readers then blocked else returns (record l { writer = true })

-- pthread_rwlock_rdlock waits for a writer.
unfoldable pub r_lock : RwLatch → Outcome RwLatch
r_lock l = if l.writer then blocked else returns (record l { readers = l.readers + 1 })

-- pthread_rwlock_unlock of a latch that nobody holds is undefined.
unfoldable pub w_unlock : RwLatch → Outcome RwLatch
w_unlock l = if l.writer then returns (record l { writer = false }) else fault

unfoldable pub r_unlock : RwLatch → Outcome RwLatch
r_unlock l = if l.readers == 0 then fault else returns (record l { readers = l.readers - 1 })

abbrev pub reading : RwLatch → RwLatch
reading l = record l { readers = l.readers + 1 }

abbrev pub writing : RwLatch
writing = record { readers = 0; writer = true }

pub r_lock-free : (l : RwLatch) → l.writer ≡ false → r_lock l ≡ returns (reading l)
unfolding r_lock
r_lock-free l h = ground arith

pub w_lock-free : (l : RwLatch) → l ≡ unlocked → w_lock l ≡ returns writing
unfolding w_lock
w_lock-free l h = rw h

pub w_unlock-held : w_unlock writing ≡ returns unlocked
unfolding w_unlock
w_unlock-held = refl

pub w_lock-blocked : (l : RwLatch) → 0 < l.readers → w_lock l ≡ blocked
unfolding w_lock
w_lock-blocked l h = ground arith

pub w_unlock-fault : w_unlock unlocked ≡ fault
unfolding w_unlock
w_unlock-fault = refl
