-- ===== src/Tests/Storage.antt =====
-- The theorems on pages and the data file at concrete pages and files.
use edbc.Base.{◌+◌, ◌≡◌, ◌≢◌, refl, ap, inl, true, false, none, some, [], ◌∷◌, arith, leb}
use edbc.Base.Outcome.{returns, blocked, fault}
use edbc.Base.Outcome.Rc.{edb_ok}
use edbc.Base.Latch.{RwLatch, unlocked, reading}
use edbc.Base.Bytes.{Bytes}
use edbc.Base.Memory.{Memory, store32, store8, store_bytes, load32}
use edbc.Ixm.Bucket.{Rid}
use edbc.Dms.Page.{
  gap, slot_at, dms_pagesize, dms_slot_empty, free_space_at, fresh_page, wants_rearrange, has_room,
  place_record, add_free_space, drop_record, re_arrange_space, sub32,
}
use edbc.Dms.Models.{Models, fresh_page-Models}
use edbc.Dms.Insert.{place_record-Models}
use edbc.Dms.Overlap.{place_record-overlap}
use edbc.Dms.Drop.{drop_record-Models}
use edbc.Dms.Rearrange.{re_arrange_space-fault}
use edbc.Dms.File.{DmsFile, extend_segment, insert_record, find, remove}
use edbc.Dms.Store.{Contents, assign, IsStore}
use edbc.Dms.Segment.{with_segment}
use edbc.Dms.Grow.{extend_segment-adds}
use edbc.Dms.Operations.{find-reads, remove-empties, insert-adds}
use edbc.Dms.Faults.{remove-blocked, insert-unheld}
use edbc.Tests.Fixtures.{
  numbers, no_rid, willing, header_file, header_file-IsStore, nothing, one_segment,
  one_segment-IsStore, one_segment-free, blank_pages, first_page, page_zero, fresh_gap,
}

-- The text of the object 2.
abbrev two : Bytes
two = 34 ∷ 49 ∷ 49 ∷ []

pub placed :
    (wants_rearrange fresh_page 15 ≡ false)
    × (has_room fresh_page 15 ≡ true)
    × ((m' : Memory) × (place_record fresh_page 15 (34 ∷ 49 ∷ 49 ∷ []) ≡ returns (m', 0))
        × Models (add_free_space m' (sub32 0 15)) (some (34 ∷ 49 ∷ 49 ∷ []) ∷ [])
        × (load32 m' free_space_at ≡ load32 fresh_page free_space_at))
placed =
    place_record-Models fresh_page [] two fresh_page-Models (numbers.dump-IsText 2)
      (omega (arith, fresh_gap))

place_record-Models_example :
    (wants_rearrange fresh_page 15 ≡ false)
    × (has_room fresh_page 15 ≡ true)
    × ((m' : Memory) × (place_record fresh_page 15 (34 ∷ 49 ∷ 49 ∷ []) ≡ returns (m', 0))
        × Models (add_free_space m' (sub32 0 15)) (some (34 ∷ 49 ∷ 49 ∷ []) ∷ [])
        × (load32 m' free_space_at ≡ load32 fresh_page free_space_at))
place_record-Models_example =
    place_record-Models fresh_page [] two fresh_page-Models (numbers.dump-IsText 2)
      (omega (arith, fresh_gap))

-- The page with that record.
abbrev pub page_two : Memory
page_two = add_free_space (placed.2.0) (sub32 0 15)

pub page_two-Models : Models page_two (some two ∷ [])
page_two-Models = placed.2.2

drop_record-Models_example :
    (load32 page_two (slot_at 0) ≢ dms_slot_empty)
    × (leb (load32 page_two (slot_at 0) + 8) dms_pagesize ≡ true)
    × Models
        (add_free_space (drop_record page_two 0 (load32 page_two (slot_at 0))) (
          load32
            (drop_record page_two 0 (load32 page_two (slot_at 0)))
            (load32 page_two (slot_at 0))))
        (none ∷ [])
    × (load32 (drop_record page_two 0 (load32 page_two (slot_at 0))) free_space_at
        ≡ load32 page_two free_space_at)
drop_record-Models_example = drop_record-Models page_two (some two ∷ []) page_two-Models 0 two refl

re_arrange_space-fault_example : re_arrange_space 9 page_two ≡ fault
re_arrange_space-fault_example = re_arrange_space-fault 8 page_two (some two) [] page_two-Models

extend_segment-adds_example :
    (e : DmsFile) × (extend_segment willing header_file ≡ returns (edb_ok, e))
    × IsStore e (with_segment 0 nothing)
    × (e.rw_mutex ≡ unlocked)
    × (e.file_size ≡ 134283264)
extend_segment-adds_example =
    extend_segment-adds willing header_file nothing header_file-IsStore refl refl refl (λ n. refl)
      refl (omega arith)

abbrev with_two : Contents
with_two = assign blank_pages 0 (some two ∷ [])

inserted :
    (d' : DmsFile) × (insert_record numbers willing 1 one_segment 2 0 no_rid
      ≡ returns (((edb_ok, record { pid = 0; sid = 0 }), d'), 2))
    × IsStore d' with_two
    × (d'.rw_mutex ≡ unlocked)
inserted =
    insert-adds numbers one_segment blank_pages one_segment-IsStore 2 2 0 4194276 fresh_page [] refl
      first_page refl page_zero (omega (arith, fresh_gap)) willing 0 no_rid one_segment-free 0

insert-adds_example :
    (d' : DmsFile) × (insert_record numbers willing 1 one_segment 2 0 no_rid
      ≡ returns (((edb_ok, record { pid = 0; sid = 0 }), d'), 2))
    × IsStore d' (assign blank_pages 0 (some (34 ∷ 49 ∷ 49 ∷ []) ∷ []))
    × (d'.rw_mutex ≡ unlocked)
insert-adds_example =
    insert-adds numbers one_segment blank_pages one_segment-IsStore 2 2 0 4194276 fresh_page [] refl
      first_page refl page_zero (omega (arith, fresh_gap)) willing 0 no_rid one_segment-free 0

abbrev file_two : DmsFile
file_two = inserted.0

free_two : file_two.rw_mutex ≡ unlocked
free_two = inserted.3

abbrev rid_two : Rid
rid_two = record { pid = 0; sid = 0 }

found_two :
    find numbers file_two rid_two 0
    ≡ returns (edb_ok, 2, record file_two { rw_mutex = reading file_two.rw_mutex })
found_two =
    find-reads numbers file_two with_two (inserted.2) rid_two (some two ∷ []) two refl refl 2 0 refl
      (ap (λ (l : RwLatch). l.writer) free_two)

find-reads_example :
    find numbers file_two rid_two 0
    ≡ returns (edb_ok, 2, record file_two { rw_mutex = reading file_two.rw_mutex })
find-reads_example =
    find-reads numbers file_two with_two (inserted.2) rid_two (some two ∷ []) two refl refl 2 0 refl
      (ap (λ (l : RwLatch). l.writer) free_two)

remove-empties_example :
    (d' : DmsFile) × (remove numbers file_two rid_two ≡ returns (edb_ok, d'))
    × IsStore d' (assign with_two 0 (none ∷ []))
    × (d'.rw_mutex ≡ unlocked)
remove-empties_example =
    remove-empties numbers file_two with_two (inserted.2) rid_two (some two ∷ []) two refl refl
      free_two

remove-blocked_example :
    remove numbers (record file_two { rw_mutex = reading file_two.rw_mutex }) rid_two ≡ blocked
remove-blocked_example =
    remove-blocked numbers file_two (record file_two { rw_mutex = reading file_two.rw_mutex })
      rid_two 0 2 edb_ok found_two rid_two

insert-unheld_example : insert_record numbers willing 5 one_segment 0 0 no_rid ≡ fault
insert-unheld_example =
    insert-unheld numbers willing 5 one_segment 0 0 no_rid one_segment-free (inl refl)

-- A page whose one record was large and was removed.
abbrev worn_page : Memory
worn_page = store32 (store32 (store32 (store32 fresh_page 12 1) 16 32) 24 46) 28 4294967295

worn_page-Models : Models worn_page (none ∷ [])
unfolding fresh_page load32 store32 store8
worn_page-Models = record {
  eye = (refl, (refl, (refl, (refl, tt))));
  slots = refl;
  slot_end = refl;
  room = omega arith;
  blank = λ i lo hi. ground arith;
  laid = (46, omega arith, refl, refl);
  free = refl;
}

worn_gap : gap worn_page ≡ 14
unfolding gap fresh_page load32 store32 store8 store_bytes
worn_gap = refl

place_record-overlap_example :
    (has_room worn_page 14 ≡ true)
    × ((m' : Memory) × (place_record worn_page 14 (34 ∷ 49 ∷ []) ≡ returns (m', 1))
        × (load32 m' 24 ≡ 32)
        × (load32 m' 32 ≡ 14))
place_record-overlap_example =
    place_record-overlap worn_page (none ∷ []) (34 ∷ 49 ∷ []) worn_page-Models worn_gap
