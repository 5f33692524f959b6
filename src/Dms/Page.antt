-- ===== src/Dms/Page.antt =====
-- One page of the data file: the structures of include/dms.hpp at their byte offsets, and what
-- dmsFile::insert, remove, find, searchSlot, extendSegment and reArrangeSpace (dms/dms.cpp) do
-- inside a page. An access past the end of the page is a fault.
use edbc.Base.{
  ℕ, zero, suc, ◌+◌, ◌-◌, ◌*◌, ◌%◌, ◌^◌, Bool, true, false, ◌&&◌, none, some, [], ◌∷◌, ltb, leb,
  ◌==◌, if◌then◌else◌, length, take,
}
use edbc.Base.Outcome.{Outcome, returns, fault, starved, ◌>>=◌, Rc}
use edbc.Base.Outcome.Rc.{edb_ok, edb_sys}
use edbc.Base.Bytes.{Bytes, bytes_eq}
use edbc.Base.Memory.{Memory, store_bytes, store32, load32, c_string, read_bytes}

abbrev pub dms_pagesize : ℕ
dms_pagesize = 4194304

abbrev pub dms_record_flag_normal : ℕ
dms_record_flag_normal = 0

abbrev pub dms_record_flag_dropped : ℕ
dms_record_flag_dropped = 1

-- `(int)0xFFFFFFFF` as a 32-bit word
abbrev pub dms_slot_empty : ℕ
dms_slot_empty = 4294967295

-- "PAGH"
abbrev pub dms_page_eyecatcher : Bytes
dms_page_eyecatcher = 80 ∷ 65 ∷ 71 ∷ 72 ∷ []

-- The offsets of the fields of dmsPageHeader, and its size.
abbrev pub size_at : ℕ
size_at = 4

abbrev pub flag_at : ℕ
flag_at = 8

abbrev pub num_slots_at : ℕ
num_slots_at = 12

abbrev pub slot_offset_at : ℕ
slot_offset_at = 16

abbrev pub free_space_at : ℕ
free_space_at = 20

abbrev pub free_offset_at : ℕ
free_offset_at = 24

abbrev pub page_header_size : ℕ
page_header_size = 28

-- sizeof(dmsRecord): size_ at 0, flag_ at 4
abbrev pub record_header_size : ℕ
record_header_size = 8

-- sizeof(slot_off_t)
abbrev pub slot_size : ℕ
slot_size = 4

-- sizeof(dmsHeader)
abbrev pub dms_header_size : ℕ
dms_header_size = 16

abbrev pub dms_max_record : ℕ
dms_max_record = dms_pagesize - dms_header_size - record_header_size - slot_size

abbrev pub slot_at : ℕ → ℕ
slot_at s = page_header_size + s * slot_size

-- unsigned a - b
abbrev pub sub32 : ℕ → ℕ → ℕ
sub32 a b = (a + 2 ^ 32 - b) % 2 ^ 32

-- The header that extendSegment copies over the zeros of a new page.
unfoldable pub fresh_page : Memory
fresh_page =
    let m₀ = store_bytes (λ _. 0) 0 dms_page_eyecatcher in
    let m₁ = store32 m₀ size_at dms_pagesize in
    let m₂ = store32 m₁ flag_at 0 in
    let m₃ = store32 m₂ num_slots_at 0 in
    let m₄ = store32 m₃ slot_offset_at page_header_size in
    let m₅ = store32 m₄ free_space_at (dms_pagesize - page_header_size) in
    store32 m₅ free_offset_at dms_pagesize

-- The memcmp of the eye catcher.
unfoldable pub eye_ok : Memory → Bool
eye_ok m = bytes_eq (m 0 ∷ m 1 ∷ m 2 ∷ m 3 ∷ []) dms_page_eyecatcher

-- freeOffset_ - slotOffset_
unfoldable pub gap : Memory → ℕ
gap m = sub32 (load32 m free_offset_at) (load32 m slot_offset_at)

-- The test before reArrangeSpace, and the one after it.
unfoldable pub wants_rearrange : Memory → ℕ → Bool
wants_rearrange m need = ltb (gap m) (load32 m free_space_at) && ltb (gap m) need

unfoldable pub has_room : Memory → ℕ → Bool
has_room m need = leb need (load32 m free_space_at) && leb need (gap m)

unfoldable pub put_slot : Memory → ℕ → Memory
put_slot m pos = store32 m (slot_at (load32 m num_slots_at)) pos

unfoldable pub put_record : Memory → ℕ → ℕ → Bytes → Memory
put_record m pos need bytes =
    let m₁ = store32 m pos need in
    let m₂ = store32 m₁ (pos + 4) dms_record_flag_normal in
    store_bytes m₂ (pos + record_header_size) bytes

unfoldable pub bump_header : Memory → ℕ → Memory
bump_header m pos =
    let m₁ = store32 m num_slots_at ((load32 m num_slots_at + 1) % 2 ^ 32) in
    let m₂ = store32 m₁ slot_offset_at ((load32 m₁ slot_offset_at + slot_size) % 2 ^ 32) in
    store32 m₂ free_offset_at pos

-- What insert does in the page, up to updateFreeSpace: the page, and the slot number.
unfoldable pub place_record : Memory → ℕ → Bytes → Outcome (Memory × ℕ)
place_record m need bytes =
    let pos = sub32 (load32 m free_offset_at) need in
    let stored = put_record (put_slot m pos) pos need bytes in
    if leb (slot_at (load32 m num_slots_at) + slot_size) dms_pagesize
      && leb (pos + record_header_size + length bytes) dms_pagesize
    then returns (bump_header stored pos, load32 stored num_slots_at)
    else fault

-- freeSpace_ += changeSize, where the change is a 32-bit word.
unfoldable pub add_free_space : Memory → ℕ → Memory
add_free_space m change = store32 m free_space_at ((load32 m free_space_at + change) % 2 ^ 32)

-- searchSlot, whose page is not null at its calls.
unfoldable pub search_slot : Memory → ℕ → ℕ → Outcome (Rc × ℕ)
search_slot m sid slot_off =
    if ltb (load32 m num_slots_at) sid
    then returns (edb_sys, slot_off)
    else if leb (slot_at sid + slot_size) dms_pagesize
    then returns (edb_ok, load32 m (slot_at sid))
    else fault

-- The text that find parses: a C string, cut to the stored size.
unfoldable pub record_text : Memory → ℕ → Outcome Bytes
record_text m off =
    let start = off + record_header_size in
    elim (c_string (dms_pagesize - start) m start) [
      | none ↦ fault
      | some s ↦ returns (take (sub32 (load32 m off) record_header_size) s)
    ]

-- What remove does in the page, up to updateFreeSpace.
unfoldable pub drop_record : Memory → ℕ → ℕ → Memory
drop_record m sid slot =
    store32 (store32 m (slot_at sid) dms_slot_empty) (slot + 4) dms_record_flag_dropped

-- One round of reArrangeSpace for a slot that is in use: the page and the new end. The slot word
-- is read and written at `i * 4` from the page's start, as in the source.
unfoldable pub move_record : Memory → ℕ → ℕ → ℕ → Bool → Outcome (Memory × ℕ)
unfolding read_bytes
move_record m i offset end removed =
    let size = load32 m offset in
    let end' = end - size in
    if leb (offset + record_header_size) dms_pagesize && leb size end
    then returns (
      if removed
          then store32 (store_bytes m end' (read_bytes size m offset)) (i * slot_size) end'
          else m,
      end',
    )
    else fault

-- The loop of reArrangeSpace; the number of slots is read in each round.
unfoldable pub rearrange_loop : ℕ → Memory → ℕ → ℕ → Bool → Outcome Memory
rearrange_loop zero m i end removed = starved
rearrange_loop (suc fuel) m i end removed =
    let offset = load32 m (i * slot_size) in
    let skip = rearrange_loop fuel m (i + 1) end true in
    let moved =
      move_record m i offset end removed >>= (λ r. rearrange_loop fuel r.0 (i + 1) r.1 removed) in
    if ltb i (load32 m num_slots_at)
    then (if offset == dms_slot_empty then skip else moved)
    else returns m

unfoldable pub re_arrange_space : ℕ → Memory → Outcome Memory
re_arrange_space fuel m = rearrange_loop fuel m 0 dms_pagesize false
