-- ===== src/Dms/Read.antt =====
-- Reading and dropping a slot: the page parts of dmsFile::find, remove and searchSlot (dms/dms.cpp).
use edbc.Base.{
  ℕ, ◌+◌, ◌-◌, ◌≤◌, ◌≡◌, Option, some, length, get_elem?, get_elem?-lt, take_all, arith, le→leb,
  le→ltb_false,
}
use edbc.Base.Outcome.{returns}
use edbc.Base.Outcome.Rc.{edb_ok}
use edbc.Base.Bytes.{Bytes}
use edbc.Base.Memory.{Memory, load32, c_string-text}
use edbc.Dms.Page.{slot_at, sub32, dms_pagesize, free_offset_at, search_slot, record_text}
use edbc.Dms.Layout.{Slots, RecordAt, SlotHolds, Laid-lookup}
use edbc.Dms.Models.{Models, Models-gap}

module _ (m : Memory) (cs : Slots) (h : Models m cs) (sid : ℕ) where
  -- What the page holds for a slot in range.
  pub slot_of :
      (c : Option Bytes)
      → get_elem? cs sid ≡ some c
      → SlotHolds m sid dms_pagesize (load32 m free_offset_at) c
  slot_of c e = Laid-lookup m 0 dms_pagesize _ cs sid sid c (omega arith) e h.laid

  -- The slot word is found for every slot of the page.
  pub search_slot-in_range :
      (c : Option Bytes) (off : ℕ)
      → get_elem? cs sid ≡ some c
      → search_slot m sid off ≡ returns (edb_ok, load32 m (slot_at sid))
  unfolding search_slot
  search_slot-in_range c off e =
      let lt = get_elem?-lt cs sid c e in
      let g = Models-gap m cs h in
      rw (
        h.slots,
        le→ltb_false (length cs) sid (omega arith),
        le→leb (slot_at sid + 4) dms_pagesize (omega (arith, g)),
      )

  -- The bytes of a record in use are read back whole.
  pub record_text-body :
      (bs : Bytes) (off : ℕ)
      → off + 12 + length bs ≤ dms_pagesize
      → RecordAt m off bs
      → record_text m off ≡ returns bs
  unfolding record_text
  record_text-body bs off le r = rw (
    c_string-text (dms_pagesize - (off + 8)) m (off + 8) bs r.text r.body r.stop (omega arith),
    record_text,
    r.size,
    take_all (sub32 (length bs + 12) 8) bs (omega arith),
  )
