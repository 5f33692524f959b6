-- ===== src/Base/Multimap.antt =====
-- std::multimap with unsigned keys, as its entries in iteration order.
use edbc.Base.Tests.{ltb, ◌==◌, if◌then◌else◌}
use Prim.Native.Nat.{ℕ, ◌+◌, ◌≤◌}
use mathlib.Core.Path.{◌≡◌, refl}
use native.Mathlib.Omega.{arith}
use mathlib.Core.Bool.{Bool, true, false, ◌&&◌}
use mathlib.Core.Option.{Option, none, some}
use mathlib.Core.List.{List, [], ◌∷◌}

abbrev pub Multimap {ℓ} : Type ℓ → Type ℓ
Multimap V = List (ℕ × V)

module _ {ℓ} {V : Type ℓ} where
  -- A new entry goes behind those with an equal key.
  unfoldable pub insert : ℕ → V → Multimap V → Multimap V
  insert k v [] = (k, v) ∷ []
  insert k v ((j, w) ∷ m) = if ltb k j then (k, v) ∷ (j, w) ∷ m else (j, w) ∷ insert k v m

  -- The first entry of `equal_range(k)` that passes the test.
  unfoldable pub find_in_range : ℕ → (V → Bool) → Multimap V → Option V
  find_in_range k test [] = none
  find_in_range k test ((j, w) ∷ m) = if (j == k) && test w then some w else find_in_range k test m

  -- Erases that entry, if there is one.
  unfoldable pub erase_in_range : ℕ → (V → Bool) → Multimap V → Multimap V
  erase_in_range k test [] = []
  erase_in_range k test ((j, w) ∷ m) =
      if (j == k) && test w then m else (j, w) ∷ erase_in_range k test m

  -- The entry at `upper_bound(k)`: the first with a greater key.
  unfoldable pub upper_bound : ℕ → Multimap V → Option (ℕ × V)
  upper_bound k [] = none
  upper_bound k ((j, w) ∷ m) = if ltb k j then some (j, w) else upper_bound k m

  -- The entries with the key that pass the test.
  unfoldable pub count_in_range : ℕ → (V → Bool) → Multimap V → ℕ
  count_in_range k test [] = 0
  count_in_range k test ((j, w) ∷ m) =
      (if (j == k) && test w then 1 else 0) + count_in_range k test m

  pub find-insert :
      (k : ℕ) (test : V → Bool) (j : ℕ) (v : V) (m : Multimap V)
      → ((j == k) && test v ≡ true → find_in_range k test m ≡ none)
      → find_in_range k test (insert j v m)
        ≡ (if (j == k) && test v then some v else find_in_range k test m)
  unfolding find_in_range insert
  find-insert k test j v [] h = ground arith
  find-insert k test j v ((i, w) ∷ m) h = ground (arith, find-insert k test j v m)

  pub count-insert :
      (k : ℕ) (test : V → Bool) (j : ℕ) (v : V) (m : Multimap V)
      → count_in_range k test (insert j v m)
        ≡ (if (j == k) && test v then 1 else 0) + count_in_range k test m
  unfolding count_in_range insert
  count-insert k test j v [] = refl
  count-insert k test j v ((i, w) ∷ m) = ground (arith, count-insert k test j v m)

  pub count-find_none :
      (k : ℕ) (test : V → Bool) (m : Multimap V)
      → find_in_range k test m ≡ none
      → count_in_range k test m ≡ 0
  unfolding count_in_range find_in_range
  count-find_none k test [] h = refl
  count-find_none k test ((i, w) ∷ m) h = ground (arith, count-find_none k test m)

  pub find-count_zero :
      (k : ℕ) (test : V → Bool) (m : Multimap V)
      → count_in_range k test m ≡ 0
      → find_in_range k test m ≡ none
  unfolding count_in_range find_in_range
  find-count_zero k test [] h = refl
  find-count_zero k test ((i, w) ∷ m) h = ground (arith, find-count_zero k test m)

  pub find-erase_self :
      (k : ℕ) (test : V → Bool) (m : Multimap V)
      → count_in_range k test m ≤ 1
      → find_in_range k test (erase_in_range k test m) ≡ none
  unfolding count_in_range find_in_range erase_in_range
  find-erase_self k test [] h = refl
  find-erase_self k test ((i, w) ∷ m) h =
      ground (arith, find-erase_self k test m, find-count_zero k test m)

  pub find-erase_other :
      (k : ℕ) (test : V → Bool) (j : ℕ) (other : V → Bool) (m : Multimap V)
      → ((v : V) → other v ≡ true → test v ≡ false)
      → find_in_range k test (erase_in_range j other m) ≡ find_in_range k test m
  unfolding find_in_range erase_in_range
  find-erase_other k test j other [] h = refl
  find-erase_other k test j other ((i, w) ∷ m) h =
      ground (arith, h w, find-erase_other k test j other m h)

  pub count-erase-le :
      (k : ℕ) (test : V → Bool) (j : ℕ) (other : V → Bool) (m : Multimap V)
      → count_in_range k test (erase_in_range j other m) ≤ count_in_range k test m
  unfolding count_in_range erase_in_range
  count-erase-le k test j other [] = omega arith
  count-erase-le k test j other ((i, w) ∷ m) = ground (arith, count-erase-le k test j other m)
