-- ===== src/Dms/Insert.antt =====
-- Placing a record in a page: the page part of dmsFile::insert (dms/dms.cpp).
use edbc.Base.{
  ℕ, ◌+◌, ◌-◌, ◌%◌, ◌^◌, ◌≤◌, ◌<◌, ◌≡◌, refl, ap, ◌∙◌, ◌⊎◌, true, false, none, some, [], ◌∷◌, ◌++◌,
  length, length-append, arith, le→leb,
}
use edbc.Base.Outcome.{returns}
use edbc.Base.Bytes.{Bytes, IsText}
use edbc.Base.Memory.{
  Memory, load32, store32, AgreeOn, store_bytes-outside, store32-outside, load32-outside,
  load32_agree, HoldsAt-agree,
}
use edbc.Dms.Page.{
  slot_at, dms_pagesize, dms_page_eyecatcher, free_space_at, free_offset_at, page_header_size,
  put_slot, put_record, bump_header, place_record, add_free_space, wants_rearrange, has_room, gap,
  sub32,
}
use edbc.Dms.Layout.{Slots, used, Laid-agree, Laid-snoc}
use edbc.Dms.Models.{Models, Models-gap}
use edbc.Dms.Stores.{recorded, placed, placed-outside, placed_header, placed_slot, placed_record}

used-snoc :
    (cs : Slots) (bytes : Bytes) → used (cs ++ some bytes ∷ []) ≡ used cs + length bytes + 12
used-snoc [] bytes = omega arith
used-snoc (none ∷ cs) bytes = used-snoc cs bytes
used-snoc (some b ∷ cs) bytes = omega (arith, used-snoc cs bytes)

-- Where the gap takes the record, its slot and its spare bytes, insert adds one slot that holds it.
module _ (m : Memory) (cs : Slots) (bytes : Bytes) (h : Models m cs) (text : IsText bytes)
    (fits : length bytes + 16 ≤ gap m) where
  abbrev need : ℕ
  need = length bytes + 12

  abbrev place_at : ℕ
  place_at = load32 m free_offset_at - need

  abbrev result : Memory
  result =
      placed m (length cs) place_at need bytes (slot_at (length cs) + 4)
        (load32 m free_space_at - need)

  facts :
      (place_at + need ≡ load32 m free_offset_at)
      × (slot_at (length cs) + 4 ≤ place_at)
      × (place_at + need ≤ dms_pagesize)
      × (need ≤ load32 m free_space_at)
      × (load32 m free_space_at + used cs ≡ dms_pagesize - page_header_size)
  facts =
      let (g, u) = Models-gap m cs h in
      let k = h.free in (omega arith, omega arith, omega arith, omega arith, k)

  header :
      (load32 result 12 ≡ length cs + 1)
      × (load32 result 16 ≡ slot_at (length cs) + 4)
      × (load32 result 24 ≡ place_at)
      × (load32 result 20 ≡ load32 m free_space_at - need)
  header =
      placed_header m (length cs) place_at need bytes _ _ (omega (arith, facts))
        (omega (arith, facts)) (omega (arith, facts)) (omega (arith, facts)) (omega (arith, facts))
        (omega (arith, facts))

  outside :
      (i : ℕ)
      → (i < 12) ⊎ (28 ≤ i)
      → (i < slot_at (length cs)) ⊎ (slot_at (length cs) + 4 ≤ i)
      → (i < place_at) ⊎ (place_at + 8 + length bytes ≤ i)
      → result i ≡ m i
  outside = placed-outside m (length cs) place_at need bytes _ _

  eye_agrees : AgreeOn 0 4 m result
  eye_agrees i lo hi = outside i (omega arith) (omega arith) (omega (arith, facts))

  blank_kept : (i : ℕ) → slot_at (length cs) + 4 ≤ i → i < place_at → result i ≡ 0
  blank_kept i lo hi =
      outside i (omega arith) (omega arith) (omega arith)
      ∙ h.blank i (omega arith) (omega (arith, facts))

  blank_stop : m (place_at + 8 + length bytes) ≡ 0
  blank_stop = h.blank _ (omega (arith, facts)) (omega (arith, facts))

  slot_set : load32 result (slot_at (0 + length cs)) ≡ place_at
  slot_set =
      ap (λ (t : ℕ). load32 result (slot_at t)) (omega arith)
      ∙ placed_slot m (length cs) place_at need bytes _ _ (omega (arith, facts))
          (omega (arith, facts)) (omega (arith, facts))

  pub result-Models : Models result (cs ++ some bytes ∷ [])
  result-Models = record {
    eye = HoldsAt-agree m result 0 dms_page_eyecatcher eye_agrees h.eye;
    slots = header.0 ∙ omega (arith, length-append cs (some bytes ∷ []));
    slot_end = header.1 ∙ omega (arith, length-append cs (some bytes ∷ []));
    room = rw header.2 (omega (arith, facts, length-append cs (some bytes ∷ [])));
    blank = λ i lo hi.
        blank_kept i (omega (arith, length-append cs (some bytes ∷ []))) (rw header.2 at hi);
    laid = rw header.2 (
        Laid-snoc result 0 dms_pagesize (load32 m free_offset_at) cs place_at bytes
          (Laid-agree m result 0 dms_pagesize _ cs
            (λ i lo hi. outside i (omega arith) (omega arith) (omega (arith, facts)))
            (λ i lo hi.
              outside i (omega (arith, facts)) (omega (arith, facts)) (omega (arith, facts)))
            h.laid)
          slot_set (omega (arith, facts))
          (placed_record m (length cs) place_at need bytes _ _ (omega (arith, facts))
            (omega (arith, facts)) (omega (arith, facts)) refl text blank_stop));
    free = rw header.3 (omega (arith, facts, used-snoc cs bytes));
  }

  abbrev stored : Memory
  stored = recorded m (length cs) place_at need bytes (slot_at (length cs) + 4) 0

  abbrev bumped : Memory
  bumped =
      store32 (store32 (store32 stored 12 (length cs + 1)) 16 (slot_at (length cs) + 4)) 24 place_at

  stored_header : AgreeOn 12 28 m stored
  stored_header i lo hi =
      store_bytes-outside _ (place_at + 8) bytes i (omega (arith, facts))
      ∙ store32-outside _ (place_at + 4) 0 i (omega (arith, facts))
      ∙ store32-outside _ place_at need i (omega (arith, facts))
      ∙ store32-outside m (slot_at (length cs)) place_at i (omega arith)

  stored_at : (a : ℕ) → 12 ≤ a → a + 4 ≤ 28 → load32 stored a ≡ load32 m a
  stored_at a lo hi = load32_agree m stored a (λ i p q. stored_header i (omega arith) (omega arith))

  placing : place_record m need bytes ≡ returns (bumped, length cs)
  unfolding place_record put_slot put_record bump_header
  placing =
      let pos : sub32 (load32 m free_offset_at) need ≡ place_at = omega (arith, facts) in
      let kept : load32 stored 12 ≡ length cs =
        stored_at 12 (omega arith) (omega arith) ∙ h.slots in
      let wrap : (length cs + 1) % 2 ^ 32 ≡ length cs + 1 = omega (arith, facts) in
      let slots : load32 (store32 stored 12 (length cs + 1)) 16 ≡ slot_at (length cs) =
        load32-outside stored 12 (length cs + 1) 16 (omega arith)
        ∙ stored_at 16 (omega arith) (omega arith)
        ∙ h.slot_end in
      let wrap' : (slot_at (length cs) + 4) % 2 ^ 32 ≡ slot_at (length cs) + 4 =
        omega (arith, facts) in
      rw (
        h.slots,
        pos,
        kept,
        wrap,
        slots,
        wrap',
        le→leb (slot_at (length cs) + 4) dms_pagesize (omega (arith, facts)),
        le→leb (place_at + 8 + length bytes) dms_pagesize (omega (arith, facts)),
      )

  free_kept : load32 bumped 20 ≡ load32 m free_space_at
  free_kept =
      load32-outside _ 24 place_at 20 (omega arith)
      ∙ load32-outside _ 16 (slot_at (length cs) + 4) 20 (omega arith)
      ∙ load32-outside stored 12 (length cs + 1) 20 (omega arith)
      ∙ stored_at 20 (omega arith) (omega arith)

  freeing : add_free_space bumped (sub32 0 need) ≡ result
  unfolding add_free_space
  freeing =
      let wrap : (load32 m free_space_at + sub32 0 need) % 2 ^ 32 ≡ load32 m free_space_at - need =
        omega (arith, facts) in
      rw (free_kept, wrap)

  -- On a page that models a list of slots, with a gap that takes the text, its header, the slot
  -- and the NUL: insert does not rearrange the page, does not refuse it, and leaves a page that
  -- models the list with the text behind, whose free space is reduced by what the record needs.
  pub place_record-Models :
      (wants_rearrange m need ≡ false)
      × (has_room m need ≡ true)
      × ((m' : Memory) × (place_record m need bytes ≡ returns (m', length cs))
          × Models (add_free_space m' (sub32 0 need)) (cs ++ some bytes ∷ [])
          × (load32 m' free_space_at ≡ load32 m free_space_at))
  unfolding wants_rearrange has_room
  place_record-Models =
      (ground arith, ground (arith, facts), (bumped, placing, rw freeing result-Models, free_kept))
