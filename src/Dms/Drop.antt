-- ===== src/Dms/Drop.antt =====
-- Dropping a record: the page part of dmsFile::remove (dms/dms.cpp).
use edbc.Base.{
  ℕ, zero, suc, ◌+◌, ◌%◌, ◌^◌, ◌≤◌, ◌<◌, ◌≡◌, ◌≢◌, refl, sym, ap, ◌∙◌, ◌⊎◌, true, none, some, [],
  ◌∷◌, length, get_elem?, get_elem?-lt, set, length-set, arith, leb, le→leb,
}
use edbc.Base.Bytes.{Bytes}
use edbc.Base.Memory.{
  Memory, load32, store32, store32-outside, load32-store32, load32-outside, load32_agree,
  HoldsAt-agree,
}
use edbc.Dms.Page.{
  slot_at, dms_pagesize, dms_page_eyecatcher, dms_slot_empty, free_space_at, free_offset_at,
  drop_record, add_free_space,
}
use edbc.Dms.Layout.{Slots, Laid, used, Laid-le, Laid-agree, RecordAt, RecordAt-agree, Laid-lookup}
use edbc.Dms.Models.{Models}
use edbc.Dms.Read.{slot_of}

-- Two pages agree but on the word of slot `s` and on the four bytes at `at`.
abbrev AgreeBut : ℕ → ℕ → Memory → Memory → Type 0
AgreeBut s at m n =
    (i : ℕ) → (i < slot_at s) ⊎ (slot_at s + 4 ≤ i) → (i < at) ⊎ (at + 4 ≤ i) → n i ≡ m i

used-set :
    (cs : Slots) (k : ℕ) (bs : Bytes)
    → get_elem? cs k ≡ some (some bs)
    → used (set cs k none) + length bs + 12 ≡ used cs
used-set [] k bs g = cc
used-set (none ∷ cs) zero bs g = cc
used-set (some b ∷ cs) zero bs g = let same : b ≡ bs = cc in rw (← same) (omega arith)
used-set (none ∷ cs) (suc k) bs g = used-set cs k bs g
used-set (some b ∷ cs) (suc k) bs g = omega (arith, used-set cs k bs g)

-- Emptying slot `s + k`, whose record stands at `off`, leaves the other slots as they were.
Laid-drop :
    (m n : Memory) (s hi lo : ℕ) (cs : Slots) (k j : ℕ) (bs : Bytes) (off : ℕ)
    → s + k ≡ j
    → get_elem? cs k ≡ some (some bs)
    → load32 m (slot_at j) ≡ off
    → slot_at (s + length cs) ≤ lo
    → AgreeBut j (off + 4) m n
    → load32 n (slot_at j) ≡ dms_slot_empty
    → Laid m s hi lo cs
    → Laid n s hi lo (set cs k none)
Laid-drop m n s hi lo [] k j bs off e g w room a z l = cc
Laid-drop m n s hi lo (none ∷ cs) zero j bs off e g w room a z l = cc
Laid-drop m n s hi lo (some b ∷ cs) zero j bs off e g w room a z (o, le, w', r, l) =
    let here : s ≡ j = omega arith in
    let same : o ≡ off = sym w' ∙ ap (λ (t : ℕ). load32 m (slot_at t)) here ∙ w in
    let below = Laid-le m (s + 1) o lo cs l in
    (
      o,
      omega arith,
      rw here z,
      Laid-agree m n (s + 1) o lo cs (λ i p q. a i (omega arith) (omega arith))
          (λ i p q. a i (omega arith) (omega arith)) l,
    )
Laid-drop m n s hi lo (none ∷ cs) (suc k) j bs off e g w room a z (hi', le, w', l) =
    let (o, at, low, high, r) = Laid-lookup m (s + 1) hi' lo cs k j (some bs) (omega arith) g l in
    let inside = get_elem?-lt cs k (some bs) g in
    (
      hi',
      le,
      load32_agree m n (slot_at s) (λ i p q. a i (omega arith) (omega arith)) ∙ w',
      Laid-drop m n (s + 1) hi' lo cs k j bs off (omega arith) g w (omega arith) a z l,
    )
Laid-drop m n s hi lo (some b ∷ cs) (suc k) j bs off e g w room a z (o', le, w', r', l) =
    let (o, at, low, high, r) = Laid-lookup m (s + 1) o' lo cs k j (some bs) (omega arith) g l in
    let inside = get_elem?-lt cs k (some bs) g in
    (
      o',
      le,
      load32_agree m n (slot_at s) (λ i p q. a i (omega arith) (omega arith)) ∙ w',
      RecordAt-agree m n o' b (λ i p q. a i (omega arith) (omega arith)) r',
      Laid-drop m n (s + 1) o' lo cs k j bs off (omega arith) g w (omega arith) a z l,
    )

module _ (m : Memory) (cs : Slots) (h : Models m cs) (sid : ℕ) (bs : Bytes)
    (e : get_elem? cs sid ≡ some (some bs)) where
  abbrev slot : ℕ
  slot = load32 m (slot_at sid)

  abbrev freed : ℕ
  freed = length bs + 12

  abbrev dropped : Memory
  dropped = store32 (store32 m (slot_at sid) dms_slot_empty) (slot + 4) 1

  abbrev result : Memory
  result = store32 dropped 20 (load32 m free_space_at + freed)

  facts :
      (load32 m free_offset_at ≤ slot)
      × (slot + 12 + length bs ≤ dms_pagesize)
      × (sid < length cs)
      × (used (set cs sid none) + freed ≡ used cs)
  facts =
      let (off, at, low, high, r) = slot_of m cs h sid (some bs) e in
      (
        omega arith,
        omega arith,
        get_elem?-lt cs sid (some bs) e,
        omega (arith, used-set cs sid bs e),
      )

  pub record_here : RecordAt m slot bs
  record_here = let (off, at, low, high, r) = slot_of m cs h sid (some bs) e in rw at r

  outside :
      (i : ℕ)
      → (i < 20) ⊎ (24 ≤ i)
      → (i < slot_at sid) ⊎ (slot_at sid + 4 ≤ i)
      → (i < slot + 4) ⊎ (slot + 8 ≤ i)
      → result i ≡ m i
  outside i a b c =
      store32-outside _ 20 _ i a
      ∙ store32-outside _ (slot + 4) 1 i (omega arith)
      ∙ store32-outside m (slot_at sid) dms_slot_empty i b

  kept : (a : ℕ) → (a + 4 ≤ 20) ⊎ (24 ≤ a) → a + 4 ≤ 28 → load32 result a ≡ load32 m a
  kept a b c =
      load32_agree m result a
        (λ i lo hi. outside i (omega arith) (omega arith) (omega (arith, facts, h.room)))

  free_space : load32 result 20 ≡ load32 m free_space_at + freed
  free_space = load32-store32 _ 20 _ (omega (arith, facts, h.free))

  emptied : load32 result (slot_at sid) ≡ dms_slot_empty
  emptied =
      load32-outside _ 20 _ (slot_at sid) (omega arith)
      ∙ load32-outside _ (slot + 4) 1 (slot_at sid) (omega (arith, facts, h.room))
      ∙ load32-store32 m (slot_at sid) dms_slot_empty (omega arith)

  Laid-kept : Laid result 0 dms_pagesize (load32 m free_offset_at) (set cs sid none)
  Laid-kept =
      let n = length-set cs sid none in
      Laid-agree dropped result 0 dms_pagesize _ (set cs sid none)
        (λ i lo hi. store32-outside dropped 20 _ i (omega arith))
        (λ i lo hi. store32-outside dropped 20 _ i (omega (arith, h.room)))
        (Laid-drop m dropped 0 dms_pagesize (load32 m free_offset_at) cs sid sid bs slot
          (omega arith) e refl (omega (arith, h.room))
          (λ i a b.
            store32-outside _ (slot + 4) 1 i (omega arith)
            ∙ store32-outside m (slot_at sid) dms_slot_empty i a)
          (load32-outside _ (slot + 4) 1 (slot_at sid) (omega (arith, facts, h.room))
            ∙ load32-store32 m (slot_at sid) dms_slot_empty (omega arith))
          h.laid)

  result-Models : Models result (set cs sid none)
  result-Models =
      let n = length-set cs sid none in
      let fo : load32 result free_offset_at ≡ load32 m free_offset_at =
        kept 24 (omega arith) (omega arith) in
      record {
        eye =
            HoldsAt-agree m result 0 dms_page_eyecatcher
              (λ i lo hi. outside i (omega arith) (omega arith) (omega (arith, facts, h.room)))
              h.eye;
        slots = kept 12 (omega arith) (omega arith) ∙ omega (arith, h.slots);
        slot_end = kept 16 (omega arith) (omega arith) ∙ omega (arith, h.slot_end);
        room = rw (n, fo) h.room;
        blank = λ i lo hi.
            outside i (omega arith) (omega (arith, facts)) (omega (arith, facts))
            ∙ h.blank i (omega arith) (omega arith);
        laid = rw fo Laid-kept;
        free = rw free_space (omega (arith, facts, h.free));
      }

  freed_size : load32 dropped slot ≡ freed
  freed_size =
      load32-outside _ (slot + 4) 1 slot (omega arith)
      ∙ load32-outside m (slot_at sid) dms_slot_empty slot (omega (arith, facts, h.room))
      ∙ record_here.size

  -- On a page that models a list of slots, at a slot in use: the slot's word is not the empty one
  -- and its header lies in the page; after remove the page models the list with that slot empty,
  -- whose free space is increased by the record's stored size.
  pub drop_record-Models :
      (slot ≢ dms_slot_empty)
      × (leb (slot + 8) dms_pagesize ≡ true)
      × Models
          (add_free_space (drop_record m sid slot) (load32 (drop_record m sid slot) slot))
          (set cs sid none)
      × (load32 (drop_record m sid slot) free_space_at ≡ load32 m free_space_at)
  unfolding drop_record add_free_space
  drop_record-Models =
      let kept : load32 dropped 20 ≡ load32 m free_space_at =
        load32-outside _ (slot + 4) 1 20 (omega (arith, facts, h.room))
        ∙ load32-outside m (slot_at sid) dms_slot_empty 20 (omega arith) in
      let wrap : (load32 m free_space_at + freed) % 2 ^ 32 ≡ load32 m free_space_at + freed =
        omega (arith, facts, h.free) in
      (
        omega (arith, facts),
        le→leb (slot + 8) dms_pagesize (omega (arith, facts)),
        rw (freed_size, kept, wrap) result-Models,
        kept,
      )
