-- ===== src/Dms/Overlap.antt =====
-- dmsFile::insert (dms/dms.cpp) where the gap takes the record and not the slot.
use edbc.Base.{ℕ, ◌+◌, ◌^◌, ◌≤◌, ◌<◌, ◌≡◌, ◌∙◌, true, length, le→leb, arith}
use edbc.Base.Outcome.{returns}
use edbc.Base.Bytes.{Bytes}
use edbc.Base.Memory.{
  Memory, load32, store32, store_bytes, store_bytes-outside, load32-store32, load32-outside,
  load32_agree,
}
use edbc.Dms.Page.{
  slot_at, dms_pagesize, free_offset_at, gap, sub32, put_slot, put_record, bump_header,
  place_record, has_room,
}
use edbc.Dms.Layout.{Slots}
use edbc.Dms.Models.{Models, Models-gap}

module _ (m : Memory) (cs : Slots) (bytes : Bytes) (h : Models m cs)
    (tight : gap m ≡ length bytes + 12) where
  abbrev need : ℕ
  need = length bytes + 12

  pos_is : sub32 (load32 m free_offset_at) need ≡ slot_at (length cs)
  pos_is = let (g, u) = Models-gap m cs h in omega (arith, tight)

  -- The page with the slot and the record written, at the position that is the slot's.
  abbrev at : ℕ
  at = slot_at (length cs)

  abbrev stored : Memory
  stored = store_bytes (store32 (store32 (store32 m at at) at need) (at + 4) 0) (at + 8) bytes

  kept : (a : ℕ) → a + 4 ≤ at → load32 stored a ≡ load32 m a
  kept a le =
      load32_agree (store32 (store32 (store32 m at at) at need) (at + 4) 0) stored a
        (λ i lo hi. store_bytes-outside _ (at + 8) bytes i (omega arith))
      ∙ load32-outside _ (at + 4) 0 a (omega arith)
      ∙ load32-outside _ at need a (omega arith)
      ∙ load32-outside m at at a (omega arith)

  small : need < 2 ^ 32
  small = let (g, u) = Models-gap m cs h in omega (arith, tight)

  slot_lost : load32 stored at ≡ need
  slot_lost =
      load32_agree (store32 (store32 (store32 m at at) at need) (at + 4) 0) stored at
        (λ i lo hi. store_bytes-outside _ (at + 8) bytes i (omega arith))
      ∙ load32-outside _ (at + 4) 0 at (omega arith)
      ∙ load32-store32 _ at need small

  past_header : (pos : ℕ) → load32 (bump_header stored pos) at ≡ load32 stored at
  unfolding bump_header
  past_header pos =
      load32-outside _ 24 pos at (omega arith)
      ∙ load32-outside _ 16 _ at (omega arith)
      ∙ load32-outside stored 12 _ at (omega arith)

  -- On a page that models a list of slots, with a gap that is just what insert asks for, the text
  -- with its header and four bytes: insert does not refuse the page; the record's position, which
  -- freeOffset_ is afterwards, is that of the new slot itself; and the slot's word is the size,
  -- the first word of the record's header.
  pub place_record-overlap :
      (has_room m (length bytes + 12) ≡ true)
      × ((m' : Memory) × (place_record m (length bytes + 12) bytes ≡ returns (m', length cs))
          × (load32 m' free_offset_at ≡ slot_at (length cs))
          × (load32 m' (slot_at (length cs)) ≡ length bytes + 12))
  unfolding has_room place_record put_slot put_record bump_header
  place_record-overlap =
      let (g, u) = Models-gap m cs h in
      (
        ground (arith, h.free, tight, g, u),
        (
          bump_header stored at,
          rw (
            pos_is,
            h.slots,
            le→leb (at + 4) dms_pagesize (omega (arith, tight)),
            le→leb (at + 8 + length bytes) dms_pagesize (omega (arith, tight)),
            kept 12 (omega arith) ∙ h.slots,
          ),
          load32-store32 _ 24 at (omega (arith, tight)),
          past_header at ∙ slot_lost,
        ),
      )
