-- ===== src/Dms/Layout.antt =====
-- What a page of dms/dms.cpp holds: the records of its slots, laid out downwards from its end.
use edbc.Base.{
  ℕ, zero, suc, ◌+◌, ◌≤◌, ◌≡◌, refl, ap, ◌∙◌, Option, none, some, List, [], ◌∷◌, ◌++◌, length,
  get_elem?, arith,
}
use edbc.Base.Bytes.{Bytes, IsText}
use edbc.Base.Memory.{Memory, load32, HoldsAt, AgreeOn, load32_agree, HoldsAt-agree}
use edbc.Dms.Page.{slot_at, dms_slot_empty}

-- A slot is empty or holds a record's bytes.
abbrev pub Slots : Type 0
Slots = List (Option Bytes)

-- A record at `off`: its header, its bytes, and the NUL byte behind them.
pub record RecordAt (m : Memory) (off : ℕ) (bs : Bytes) : Type 0 where
  pub size : load32 m off ≡ length bs + 12
  pub flag : load32 m (off + 4) ≡ 0
  pub text : IsText bs
  pub body : HoldsAt m (off + 8) bs
  pub stop : m (off + 8 + length bs) ≡ 0

-- From slot `s` on: the records lie below `hi`, each below the one before, and end at `lo`.
abbrev pub Laid : Memory → ℕ → ℕ → ℕ → Slots → Type 0
Laid m s hi lo [] = hi ≡ lo
Laid m s hi lo (none ∷ cs) =
    (hi' : ℕ) × (hi' ≤ hi) × (load32 m (slot_at s) ≡ dms_slot_empty) × Laid m (s + 1) hi' lo cs
Laid m s hi lo (some bs ∷ cs) =
    (off : ℕ) × (off + 12 + length bs ≤ hi)
    × (load32 m (slot_at s) ≡ off)
    × RecordAt m off bs
    × Laid m (s + 1) off lo cs

-- The bytes that the records in use take.
abbrev pub used : Slots → ℕ
used [] = 0
used (none ∷ cs) = used cs
used (some bs ∷ cs) = length bs + 12 + used cs

pub Laid-le : (m : Memory) (s hi lo : ℕ) (cs : Slots) → Laid m s hi lo cs → lo + used cs ≤ hi
Laid-le m s hi lo [] l = omega arith
Laid-le m s hi lo (none ∷ cs) l = omega (arith, l.1, Laid-le m (s + 1) l.0 lo cs l.3)
Laid-le m s hi lo (some bs ∷ cs) l = omega (arith, l.1, Laid-le m (s + 1) l.0 lo cs l.4)

pub RecordAt-agree :
    (m n : Memory) (off : ℕ) (bs : Bytes)
    → AgreeOn off (off + 12 + length bs) m n
    → RecordAt m off bs
    → RecordAt n off bs
RecordAt-agree m n off bs h r = record {
  size = load32_agree m n off (λ i lo hi. h i (omega arith) (omega arith)) ∙ r.size;
  flag = load32_agree m n (off + 4) (λ i lo hi. h i (omega arith) (omega arith)) ∙ r.flag;
  text = r.text;
  body = HoldsAt-agree m n (off + 8) bs (λ i lo hi. h i (omega arith) (omega arith)) r.body;
  stop = h (off + 8 + length bs) (omega arith) (omega arith) ∙ r.stop;
}

-- The layout depends on the slots and on the bytes between `lo` and `hi` alone.
pub Laid-agree :
    (m n : Memory) (s hi lo : ℕ) (cs : Slots)
    → AgreeOn (slot_at s) (slot_at (s + length cs)) m n
    → AgreeOn lo hi m n
    → Laid m s hi lo cs
    → Laid n s hi lo cs
Laid-agree m n s hi lo [] a b l = l
Laid-agree m n s hi lo (none ∷ cs) a b (hi', le, e, l) = (
  hi',
  le,
  load32_agree m n (slot_at s) (λ i p q. a i (omega arith) (omega arith)) ∙ e,
  Laid-agree m n (s + 1) hi' lo cs (λ i p q. a i (omega arith) (omega arith))
      (λ i p q. b i p (omega arith)) l,
)
Laid-agree m n s hi lo (some bs ∷ cs) a b (off, le, e, r, l) = (
  off,
  le,
  load32_agree m n (slot_at s) (λ i p q. a i (omega arith) (omega arith)) ∙ e,
  RecordAt-agree m n off bs
      (λ i p q. b i (omega (arith, Laid-le m (s + 1) off lo cs l)) (omega arith)) r,
  Laid-agree m n (s + 1) off lo cs (λ i p q. a i (omega arith) (omega arith))
      (λ i p q. b i p (omega arith)) l,
)

-- One more record, below the others.
pub Laid-snoc :
    (m : Memory) (s hi lo : ℕ) (cs : Slots) (pos : ℕ) (bs : Bytes)
    → Laid m s hi lo cs
    → load32 m (slot_at (s + length cs)) ≡ pos
    → pos + 12 + length bs ≤ lo
    → RecordAt m pos bs
    → Laid m s hi pos (cs ++ some bs ∷ [])
Laid-snoc m s hi lo [] pos bs l e le r =
    (pos, omega arith, ap (λ (t : ℕ). load32 m (slot_at t)) (omega arith) ∙ e, r, refl)
Laid-snoc m s hi lo (none ∷ cs) pos bs (hi', le', e', l) e le r = (
  hi',
  le',
  e',
  Laid-snoc m (s + 1) hi' lo cs pos bs l (ap (λ (t : ℕ). load32 m (slot_at t)) (omega arith) ∙ e) le
      r,
)
Laid-snoc m s hi lo (some cs' ∷ cs) pos bs (off, le', e', r', l) e le r = (
  off,
  le',
  e',
  r',
  Laid-snoc m (s + 1) off lo cs pos bs l (ap (λ (t : ℕ). load32 m (slot_at t)) (omega arith) ∙ e) le
      r,
)

-- What the page holds for slot `s`.
abbrev pub SlotHolds : Memory → ℕ → ℕ → ℕ → Option Bytes → Type 0
SlotHolds m s hi lo none = load32 m (slot_at s) ≡ dms_slot_empty
SlotHolds m s hi lo (some bs) =
    (off : ℕ) × (load32 m (slot_at s) ≡ off)
    × (lo ≤ off)
    × (off + 12 + length bs ≤ hi)
    × RecordAt m off bs

SlotHolds-mono :
    (m : Memory) (s hi hi' lo : ℕ) (c : Option Bytes)
    → hi' ≤ hi
    → SlotHolds m s hi' lo c
    → SlotHolds m s hi lo c
SlotHolds-mono m s hi hi' lo none le h = h
SlotHolds-mono m s hi hi' lo (some bs) le (off, e, p, q, r) = (off, e, p, omega arith, r)

pub Laid-lookup :
    (m : Memory) (s hi lo : ℕ) (cs : Slots) (k j : ℕ) (c : Option Bytes)
    → s + k ≡ j
    → get_elem? cs k ≡ some c
    → Laid m s hi lo cs
    → SlotHolds m j hi lo c
Laid-lookup m s hi lo [] k j c e g l = cc
Laid-lookup m s hi lo (none ∷ cs) zero j none e g (hi', le, w, l) =
    ap (λ (t : ℕ). load32 m (slot_at t)) (omega arith) ∙ w
Laid-lookup m s hi lo (none ∷ cs) zero j (some bs) e g l = cc
Laid-lookup m s hi lo (some b ∷ cs) zero j none e g l = cc
Laid-lookup m s hi lo (some b ∷ cs) zero j (some bs) e g (off, le, w, r, l) =
    let same : b ≡ bs = cc in
    (
      off,
      ap (λ (t : ℕ). load32 m (slot_at t)) (omega arith) ∙ w,
      omega (arith, Laid-le m (s + 1) off lo cs l),
      rw (← same) le,
      rw (← same) r,
    )
Laid-lookup m s hi lo (none ∷ cs) (suc k) j c e g (hi', le, w, l) =
    SlotHolds-mono m j hi hi' lo c le (Laid-lookup m (s + 1) hi' lo cs k j c (omega arith) g l)
Laid-lookup m s hi lo (some b ∷ cs) (suc k) j c e g (off, le, w, r, l) =
    SlotHolds-mono m j hi off lo c (omega arith)
      (Laid-lookup m (s + 1) off lo cs k j c (omega arith) g l)
