-- ===== src/Base/Assoc.antt =====
-- std::map with unsigned keys, as its entries in the order of the keys.
use edbc.Base.Tests.{ltb, ◌==◌, if◌then◌else◌, Option-cases}
use Prim.Native.Nat.{ℕ, ◌+◌}
use mathlib.Core.Path.{◌≡◌, refl, sym, ◌∙◌}
use mathlib.Core.Logic.{inl, inr}
use native.Mathlib.Omega.{arith}
use mathlib.Core.Bool.{Bool, false, ◌||◌}
use mathlib.Core.Option.{Option, none, some}
use mathlib.Core.List.{List, [], ◌∷◌}

abbrev pub Assoc {ℓ} : Type ℓ → Type ℓ
Assoc V = List (ℕ × V)

module _ {ℓ} {V : Type ℓ} where
  -- `m.find(k)`
  unfoldable pub lookup : ℕ → Assoc V → Option V
  lookup k [] = none
  lookup k ((j, w) ∷ m) = if j == k then some w else lookup k m

  -- `m[k] = v`
  unfoldable pub put : ℕ → V → Assoc V → Assoc V
  put k v [] = (k, v) ∷ []
  put k v ((j, w) ∷ m) =
      let rest = put k v m in
      if j == k then (k, v) ∷ m else if ltb k j then (k, v) ∷ (j, w) ∷ m else (j, w) ∷ rest

  -- `m.erase(k)`
  unfoldable pub erase : ℕ → Assoc V → Assoc V
  erase k [] = []
  erase k ((j, w) ∷ m) = let rest = erase k m in if j == k then rest else (j, w) ∷ rest

  -- Every value that passes the test by its key is changed.
  unfoldable pub map_where : (ℕ → Bool) → (V → V) → Assoc V → Assoc V
  map_where test f [] = []
  map_where test f ((j, w) ∷ m) = (j, if test j then f w else w) ∷ map_where test f m

  unfoldable pub count_where : (ℕ → Bool) → Assoc V → ℕ
  count_where test [] = 0
  count_where test ((j, w) ∷ m) = (if test j then 1 else 0) + count_where test m

  pub lookup-put :
      (q k : ℕ) (v : V) (m : Assoc V)
      → lookup q (put k v m) ≡ (if k == q then some v else lookup q m)
  unfolding lookup put
  lookup-put q k v [] = refl
  lookup-put q k v ((j, w) ∷ m) = ground (arith, lookup-put q k v m)

  pub lookup-erase :
      (q k : ℕ) (m : Assoc V) → lookup q (erase k m) ≡ (if k == q then none else lookup q m)
  unfolding lookup erase
  lookup-erase q k [] = ground arith
  lookup-erase q k ((j, w) ∷ m) = ground (arith, lookup-erase q k m)

  pub lookup-map_where :
      (q : ℕ) (test : ℕ → Bool) (f : V → V) (m : Assoc V)
      → lookup q (map_where test f m)
        ≡ elim (lookup q m) [ none ↦ none | some w ↦ some (if test q then f w else w) ]
  unfolding lookup map_where
  lookup-map_where q test f [] = refl
  lookup-map_where q test f ((j, w) ∷ m) = ground (arith, lookup-map_where q test f m)

  pub map_where-inv :
      (q : ℕ) (test : ℕ → Bool) (f : V → V) (m : Assoc V) (c : V)
      → lookup q (map_where test f m) ≡ some c
      → (w : V) × (lookup q m ≡ some w) × (c ≡ (if test q then f w else w))
  map_where-inv q test f m c e = elim (Option-cases (lookup q m)) [
    | inl n ↦ let no : none ≡ some c = sym (rw n at (lookup-map_where q test f m)) ∙ e in cc
    | inr (w, t) ↦
        let yes : some (if test q then f w else w) ≡ some c =
          sym (rw t at (lookup-map_where q test f m)) ∙ e in
        (w, t, cc)
  ]

-- Whether some key has this value.
unfoldable pub has_value : ℕ → Assoc ℕ → Bool
has_value v [] = false
has_value v ((j, w) ∷ m) = (w == v) || has_value v m

-- The first entry with this value is erased.
unfoldable pub erase_value : ℕ → Assoc ℕ → Assoc ℕ
erase_value v [] = []
erase_value v ((j, w) ∷ m) = let rest = erase_value v m in if w == v then m else (j, w) ∷ rest
