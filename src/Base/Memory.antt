-- ===== src/Base/Memory.antt =====
-- Mapped pages and message buffers: bytes by offset, little-endian 32-bit fields, C strings.
use edbc.Base.Tests.{◌==◌, ltb, leb, if◌then◌else◌, Bool-cases}
use edbc.Base.Lists.{length, take, drop}
use edbc.Base.Bytes.{Bytes, IsText}
use Prim.Native.Nat.{ℕ, zero, suc, ◌+◌, ◌-◌, ◌*◌, ◌/◌, ◌%◌, ◌^◌, ◌≤◌, ◌<◌}
use mathlib.Core.Path.{◌≡◌, refl, ap, ◌∙◌}
use mathlib.Core.Logic.{◌⊎◌, inl, inr}
use mathlib.Core.Bool.{◌&&◌}
use mathlib.Core.Option.{Option, none, some}
use mathlib.Core.List.{[], ◌∷◌}
use native.Mathlib.Omega.{arith}

abbrev pub Memory : Type 0
Memory = ℕ → ℕ

unfoldable pub store8 : Memory → ℕ → ℕ → Memory
store8 m a v i = if i == a then v else m i

-- memcpy(m + a, bs, bs.size())
unfoldable pub store_bytes : Memory → ℕ → Bytes → Memory
unfolding store8
store_bytes m a [] = m
store_bytes m a (b ∷ bs) = store_bytes (store8 m a b) (a + 1) bs

unfoldable pub le32 : ℕ → Bytes
le32 v = (v % 256) ∷ (v / 256 % 256) ∷ (v / 65536 % 256) ∷ (v / 16777216 % 256) ∷ []

-- A store and a load of a 32-bit field.
unfoldable pub store32 : Memory → ℕ → ℕ → Memory
unfolding store_bytes le32
store32 m a v = store_bytes m a (le32 v)

unfoldable pub load32 : Memory → ℕ → ℕ
load32 m a = m a + m (a + 1) * 256 + m (a + 2) * 65536 + m (a + 3) * 16777216

-- The bytes at `a` up to the first NUL, read within `limit` bytes.
unfoldable pub c_string : ℕ → Memory → ℕ → Option Bytes
c_string zero m a = none
c_string (suc limit) m a = elim (m a) [
  | zero ↦ some []
  | suc v ↦ elim (c_string limit m (a + 1)) [ none ↦ none | some bs ↦ some (suc v ∷ bs) ]
]

-- The `n` bytes from `a` on.
unfoldable pub read_bytes : ℕ → Memory → ℕ → Bytes
read_bytes zero m a = []
read_bytes (suc n) m a = m a ∷ read_bytes n m (a + 1)

-- The memory holds these bytes from `a` on.
abbrev pub HoldsAt : Memory → ℕ → Bytes → Type 0
HoldsAt m a [] = Unit {0}
HoldsAt m a (b ∷ bs) = (m a ≡ b) × HoldsAt m (a + 1) bs

-- The two memories agree on `lo .. hi - 1`.
abbrev pub AgreeOn : ℕ → ℕ → Memory → Memory → Type 0
AgreeOn lo hi m n = (i : ℕ) → lo ≤ i → i < hi → n i ≡ m i

pub store_bytes-outside :
    (m : Memory) (a : ℕ) (bs : Bytes) (i : ℕ)
    → (i < a) ⊎ (a + length bs ≤ i)
    → store_bytes m a bs i ≡ m i
unfolding store_bytes
store_bytes-outside m a [] i h = refl
store_bytes-outside m a (b ∷ bs) i h =
    store_bytes-outside (store8 m a b) (a + 1) bs i (omega arith) ∙ unfold store8 in ground arith

pub store_bytes-HoldsAt : (m : Memory) (a : ℕ) (bs : Bytes) → HoldsAt (store_bytes m a bs) a bs
unfolding store_bytes
store_bytes-HoldsAt m a [] = tt
store_bytes-HoldsAt m a (b ∷ bs) = (
  store_bytes-outside (store8 m a b) (a + 1) bs a (omega arith) ∙ unfold store8 in ground arith,
  store_bytes-HoldsAt (store8 m a b) (a + 1) bs,
)

pub store32-outside : (m : Memory) (a v i : ℕ) → (i < a) ⊎ (a + 4 ≤ i) → store32 m a v i ≡ m i
unfolding store32
store32-outside m a v i h = store_bytes-outside m a (le32 v) i (unfold le32 in omega arith)

pub load32-store32 : (m : Memory) (a v : ℕ) → v < 2 ^ 32 → load32 (store32 m a v) a ≡ v
unfolding load32 store32
load32-store32 m a v h = ground arith

pub load32_agree : (m n : Memory) (a : ℕ) → AgreeOn a (a + 4) m n → load32 n a ≡ load32 m a
unfolding load32
load32_agree m n a h = rw (
  h a (omega arith) (omega arith),
  h (a + 1) (omega arith) (omega arith),
  h (a + 2) (omega arith) (omega arith),
  h (a + 3) (omega arith) (omega arith),
)

pub load32-outside :
    (m : Memory) (a v b : ℕ) → (b + 4 ≤ a) ⊎ (a + 4 ≤ b) → load32 (store32 m a v) b ≡ load32 m b
load32-outside m a v b h =
    load32_agree m (store32 m a v) b (λ i lo hi. store32-outside m a v i (omega arith))

pub HoldsAt-agree :
    (m n : Memory) (a : ℕ) (bs : Bytes)
    → AgreeOn a (a + length bs) m n
    → HoldsAt m a bs
    → HoldsAt n a bs
HoldsAt-agree m n a [] h t = tt
HoldsAt-agree m n a (b ∷ bs) h t = (
  h a (omega arith) (omega arith) ∙ t.0,
  HoldsAt-agree m n (a + 1) bs (λ i lo hi. h i (omega arith) (omega arith)) t.1,
)

-- Text that ends in NUL is read back whole.
pub c_string-text :
    (limit : ℕ) (m : Memory) (a : ℕ) (bs : Bytes)
    → IsText bs
    → HoldsAt m a bs
    → m (a + length bs) ≡ 0
    → length bs < limit
    → c_string limit m a ≡ some bs
unfolding c_string
c_string-text zero m a bs t h z l = absurd (omega arith)
c_string-text (suc limit) m a [] t h z l =
    let e : m a ≡ 0 = ap m (omega arith) ∙ z in rw (e, c_string)
c_string-text (suc limit) m a (zero ∷ bs) t h z l = absurd (omega (arith, t.0))
c_string-text (suc limit) m a (suc b ∷ bs) t h z l =
    let rest = c_string-text limit m (a + 1) bs t.2 h.1 (ap m (omega arith) ∙ z) (omega arith) in
    rw (h.0, c_string, rest)

pub length-read_bytes : (n : ℕ) (m : Memory) (a : ℕ) → length (read_bytes n m a) ≡ n
unfolding read_bytes
length-read_bytes zero m a = refl
length-read_bytes (suc n) m a = ap suc (length-read_bytes n m (a + 1))

pub take-read_bytes :
    (k n : ℕ) (m : Memory) (a : ℕ) → k ≤ n → take k (read_bytes n m a) ≡ read_bytes k m a
unfolding read_bytes
take-read_bytes zero n m a h = refl
take-read_bytes (suc k) zero m a h = absurd (omega arith)
take-read_bytes (suc k) (suc n) m a h = ap (◌∷◌ (m a)) (take-read_bytes k n m (a + 1) (omega arith))

pub drop-read_bytes :
    (k n : ℕ) (m : Memory) (a : ℕ)
    → k ≤ n
    → drop k (read_bytes n m a) ≡ read_bytes (n - k) m (a + k)
unfolding read_bytes
drop-read_bytes zero n m a h =
    ap (λ x. read_bytes x m a) (omega arith) ∙ ap (read_bytes (n - 0) m) (omega arith)
drop-read_bytes (suc k) zero m a h = absurd (omega arith)
drop-read_bytes (suc k) (suc n) m a h =
    drop-read_bytes k n m (a + 1) (omega arith)
    ∙ ap (λ x. read_bytes x m (a + 1 + k)) (omega arith)
    ∙ ap (read_bytes (suc n - suc k) m) (omega arith)

-- A copy between the same offsets of two memories.
pub store_bytes-read_bytes :
    (m k : Memory) (a n i : ℕ)
    → store_bytes m a (read_bytes n k a) i ≡ (if leb a i && ltb i (a + n) then k i else m i)
unfolding store_bytes read_bytes store8
store_bytes-read_bytes m k a zero i = ground arith
store_bytes-read_bytes m k a (suc n) i = elim (Bool-cases (i == a)) [
  | inl t ↦
      let at : i ≡ a = ground arith in
      store_bytes-read_bytes (store8 m a (k a)) k (a + 1) n i
      ∙ unfold store8 in rw at (ground arith)
  | inr t ↦
      store_bytes-read_bytes (store8 m a (k a)) k (a + 1) n i ∙ unfold store8 in rw t (ground arith)
]
