-- ===== src/Msg/Check.antt =====
-- MsgBuilder::checkBuffer on every branch (msg/msg.cpp).
use edbc.Base.{ℕ, ◌^◌, ◌≤◌, ◌<◌, ◌≡◌, refl, inl, inr, true, false, ltb, Bool-cases, arith}
use edbc.Base.Outcome.{returns, Rc}
use edbc.Base.Outcome.Rc.{edb_ok, edb_oom}
use edbc.Base.Memory.{AgreeOn}
use edbc.Msg.Buffer.{Buffer, Allocator, slt, is_negative, realloc, check_buffer}

-- What checkBuffer promises of the code, the buffer and the size that it leaves.
unfoldable pub IsChecked : Allocator → Buffer → ℕ → ℕ → Rc × Buffer × ℕ → Type 0
IsChecked alloc b size len (edb_ok, c, size') =
    (len ≤ c.capacity)
    × (size' ≡ c.capacity)
    × (b.capacity ≤ c.capacity)
    × AgreeOn 0 b.capacity b.bytes c.bytes
IsChecked alloc b size len (edb_oom, c, size') =
    (c ≡ b) × (size' ≡ size) × (alloc.grants len ≡ false)
IsChecked alloc b size len _ = ⊥

module _ (alloc : Allocator) (b : Buffer) (size len : ℕ) (sized : size ≡ b.capacity)
    (small : b.capacity < 2 ^ 31) (len_small : len < 2 ^ 31) where
  order : slt size len ≡ ltb size len
  order = ground (arith, sized)

  not_negative : is_negative len ≡ false
  not_negative = ground arith

  -- checkBuffer on a heap buffer whose size is kept, with sizes below 2^31: it returns either
  -- EDB_OK, with a buffer that takes the length, keeps the old bytes, is not smaller, and has its
  -- size kept, or EDB_OOM where the allocator refuses, with buffer and size as before.
  pub check_buffer-IsChecked :
      b.heap ≡ true
      → (r : Rc × Buffer × ℕ) × (check_buffer alloc b size len ≡ returns r)
        × IsChecked alloc b size len r
  unfolding check_buffer realloc IsChecked
  check_buffer-IsChecked heap = elim (Bool-cases (ltb size len)) [
    | inl t ↦ elim (Bool-cases (alloc.grants len)) [
      | inl g ↦ (
        (edb_ok, realloc alloc b len, len),
        rw (order, t, not_negative, heap, g),
        (omega arith, refl, ground (arith, sized), λ i lo hi. ground arith),
      )
      | inr g ↦ ((edb_oom, b, size), rw (order, t, not_negative, heap, g), (refl, refl, g))
    ]
    | inr t ↦ (
      (edb_ok, b, size),
      rw (order, t),
      (ground (arith, sized), sized, omega arith, λ i lo hi. refl),
    )
  ]
