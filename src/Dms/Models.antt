-- ===== src/Dms/Models.antt =====
-- When a page of dms/dms.cpp holds a list of slots: header fields, blank space, and records.
use edbc.Base.{◌+◌, ◌-◌, ◌≤◌, ◌≡◌, refl, true, [], length, arith}
use edbc.Base.Bytes.{bytes_eq}
use edbc.Base.Memory.{Memory, load32, HoldsAt, AgreeOn, store32, store8}
use edbc.Dms.Page.{
  slot_at, dms_pagesize, dms_page_eyecatcher, num_slots_at, slot_offset_at, free_space_at,
  free_offset_at, page_header_size, fresh_page, eye_ok, gap,
}
use edbc.Dms.Layout.{Slots, Laid, used, Laid-le}

pub record Models (m : Memory) (cs : Slots) : Type 0 where
  pub eye : HoldsAt m 0 dms_page_eyecatcher
  pub slots : load32 m num_slots_at ≡ length cs
  pub slot_end : load32 m slot_offset_at ≡ slot_at (length cs)
  pub room : slot_at (length cs) ≤ load32 m free_offset_at
  -- Between the slots and the records there are only zeros.
  pub blank : AgreeOn (slot_at (length cs)) (load32 m free_offset_at) (λ _. 0) m
  pub laid : Laid m 0 dms_pagesize (load32 m free_offset_at) cs
  pub free : load32 m free_space_at + used cs ≡ dms_pagesize - page_header_size

-- A new page holds no slot.
pub fresh_page-Models : Models fresh_page []
unfolding fresh_page load32 store32 store8
fresh_page-Models = record {
  eye = (refl, (refl, (refl, (refl, tt))));
  slots = refl;
  slot_end = refl;
  room = omega arith;
  blank = λ i lo hi. ground arith;
  laid = refl;
  free = refl;
}

pub Models-eye_ok : (m : Memory) (cs : Slots) → Models m cs → eye_ok m ≡ true
unfolding eye_ok bytes_eq
Models-eye_ok m cs h = rw (h.eye.0, h.eye.1.0, h.eye.1.1.0, h.eye.1.1.1.0)

-- The free offset lies in the page, and the gap is what stands between it and the slots.
pub Models-gap :
    (m : Memory) (cs : Slots)
    → Models m cs
    → (gap m + slot_at (length cs) ≡ load32 m free_offset_at)
      × (load32 m free_offset_at + used cs ≤ dms_pagesize)
unfolding gap
Models-gap m cs h =
    let le = Laid-le m 0 dms_pagesize _ cs h.laid in (omega (arith, h.room, h.slot_end), le)
