-- ===== src/Dms/Operations.antt =====
-- dmsFile::insert, find and remove (dms/dms.cpp) against the contents of the store.
use edbc.Base.{
  ℕ, suc, ◌+◌, ◌%◌, ◌^◌, ◌≤◌, ◌≡◌, refl, ◌∙◌, inl, inr, false, none, some, [], ◌∷◌, ◌++◌, length,
  get_elem?, set, ltb, Option-cases, ne→==, le→ltb_false, le→leb, arith,
}
use edbc.Base.Outcome.{returns}
use edbc.Base.Outcome.Rc.{edb_ok}
use edbc.Base.Latch.{RwLatch, unlocked, reading, writing, r_lock-free, w_lock-free, w_unlock-held}
use edbc.Base.Bytes.{Bytes}
use edbc.Base.Memory.{Memory, load32}
use edbc.Base.Multimap.{upper_bound}
use edbc.Base.Json.{JsonLib}
use edbc.Ixm.Bucket.{Rid}
use edbc.Dms.Page.{slot_at, dms_pagesize, dms_slot_empty, dms_max_record, gap, sub32, drop_record}
use edbc.Dms.Layout.{Slots}
use edbc.Dms.Models.{Models, Models-eye_ok, Models-gap}
use edbc.Dms.Insert.{place_record-Models}
use edbc.Dms.Read.{slot_of, search_slot-in_range, record_text-body}
use edbc.Dms.Drop.{drop_record-Models}
use edbc.Dms.File.{
  DmsFile, Os, page_to_offset, put_page, update_free_space, insert_into, insert_retry,
  insert_record, find, remove,
}
use edbc.Dms.Store.{Contents, assign, Entries-same, IsStore, update-IsStore}

-- The page of a page number that has contents.
pub page_of :
    (d : DmsFile) (f : Contents) (pid : ℕ) (cs : Slots)
    → IsStore d f
    → f pid ≡ some cs
    → (m : Memory) × (page_to_offset d pid ≡ some m) × Models m cs
page_of d f pid cs h e = elim (Option-cases (page_to_offset d pid)) [
  | inl none_here ↦ absurd (rw (none_here, e) at (h.holds pid))
  | inr (m, here) ↦ (m, here, rw (here, e) at (h.holds pid))
]

-- The latch has no part in where the pages stand.
locked_page :
    (d : DmsFile) (l : RwLatch) (pid : ℕ)
    → page_to_offset (record d { rw_mutex = l }) pid ≡ page_to_offset d pid
unfolding page_to_offset
locked_page d l pid = refl

-- Nor in whether the file is a store.
locked_IsStore :
    (d : DmsFile) (l : RwLatch) (f : Contents) → IsStore d f → IsStore (record d { rw_mutex = l }) f
unfolding page_to_offset
locked_IsStore d l f h = record {
  whole = h.whole;
  holds = h.holds;
  once = h.once;
  entries = Entries-same d (record d { rw_mutex = l }) d.free_space_map (λ pid. refl) h.entries;
}

update_latch :
    (d : DmsFile) (m : Memory) (change pid : ℕ)
    → (update_free_space d m change pid).rw_mutex ≡ d.rw_mutex
unfolding update_free_space put_page
update_latch d m change pid = refl

module _ (lib : JsonLib) where
  open lib use {Json, dump, parse, id_field}

  -- find reads what a slot in use holds, and keeps the read latch.
  module _ (d : DmsFile) (f : Contents) (h : IsStore d f) (rid : Rid) (cs : Slots) (bs : Bytes)
      (page : f rid.pid ≡ some cs) (slot : get_elem? cs rid.sid ≡ some (some bs)) where
    -- dmsFile::find of a slot in use whose text parses, on a file that is a store without a
    -- writer: it returns EDB_OK and what the text parses to, and the file is as before with one
    -- reader more.
    pub find-reads :
        (row old : Json)
        → parse bs ≡ some row
        → d.rw_mutex.writer ≡ false
        → find lib d rid old ≡ returns (edb_ok, row, record d { rw_mutex = reading d.rw_mutex })
    unfolding find
    find-reads row old parsed free =
        let (m, here, models) = page_of d f rid.pid cs h page in
        let (off, at, low, high, r) = slot_of m cs models rid.sid (some bs) slot in
        rw (
          r_lock-free d.rw_mutex free,
          here,
          search_slot-in_range m cs models rid.sid (some bs) 0 slot,
          at,
          ne→== off dms_slot_empty (omega arith),
          le→leb (off + 8) dms_pagesize (omega arith),
          r.flag,
          record_text-body m cs models rid.sid bs off high r,
          parsed,
        )

    -- dmsFile::remove of a slot in use, on a file that is a store with its latch free: it returns
    -- EDB_OK, the slot is empty and nothing else changed, the file is a store again (the free
    -- space map has the page under its new free space), and the latch is free.
    pub remove-empties :
        d.rw_mutex ≡ unlocked
        → (d' : DmsFile) × (remove lib d rid ≡ returns (edb_ok, d'))
          × IsStore d' (assign f rid.pid (set cs rid.sid none))
          × (d'.rw_mutex ≡ unlocked)
    unfolding remove
    remove-empties free =
        let (m, here, models) = page_of d f rid.pid cs h page in
        let (off, at, low, high, r) = slot_of m cs models rid.sid (some bs) slot in
        let (used, fits, models', kept) = drop_record-Models m cs models rid.sid bs slot in
        let m' = drop_record m rid.sid (load32 m (slot_at rid.sid)) in
        let locked : DmsFile = record d { rw_mutex = writing } in
        let d' : DmsFile =
          update_free_space locked m' (load32 m' (load32 m (slot_at rid.sid))) rid.pid in
        (
          record d' { rw_mutex = unlocked },
          rw
              (
                w_lock-free d.rw_mutex free,
                here,
                search_slot-in_range m cs models rid.sid (some bs) 0 slot,
                ne→== (load32 m (slot_at rid.sid)) dms_slot_empty used,
                fits,
              )
              (rw (
                update_latch locked m' (load32 m' (load32 m (slot_at rid.sid))) rid.pid,
                w_unlock-held,
              )),
          locked_IsStore d' unlocked _ (
              update-IsStore locked f (locked_IsStore d writing f h) rid.pid m m' _ _
                (locked_page d writing rid.pid ∙ here) kept models'),
          refl,
        )

  -- insert into the page that the free space map gives, where its gap takes record and slot.
  module _ (d : DmsFile) (f : Contents) (h : IsStore d f) (r field : Json) (pid fs : ℕ) (m : Memory)
      (cs : Slots) (has_id : id_field r ≡ some field)
      (found : upper_bound (length (dump r) + 12) d.free_space_map ≡ some (fs, pid))
      (page : f pid ≡ some cs) (here : page_to_offset d pid ≡ some m)
      (fits : length (dump r) + 16 ≤ gap m) where
    abbrev need : ℕ
    need = length (dump r) + 12

    models : Models m cs
    models = rw (here, page) at (h.holds pid)

    abbrev locked : DmsFile
    locked = record d { rw_mutex = writing }

    module _ (os : Os) (fuel : ℕ) (rid : Rid) (free : d.rw_mutex ≡ unlocked) where
      into_adds :
          (d' : DmsFile) × (insert_into fuel locked pid need (dump r) rid
            ≡ returns (edb_ok, record { pid = pid; sid = length cs }, d'))
          × IsStore d' (assign f pid (cs ++ some (dump r) ∷ []))
          × (d'.rw_mutex ≡ writing)
      unfolding insert_into
      into_adds =
          let (calm, room, (m', placed, models', kept)) =
            place_record-Models m cs (dump r) models (lib.dump-IsText r) fits in
          let at = locked_page d writing pid ∙ here in
          (
            update_free_space locked m' (sub32 0 need) pid,
            rw (at, insert_into, Models-eye_ok m cs models, calm, room, placed),
            update-IsStore locked f (locked_IsStore d writing f h) pid m m' _ _ at kept models',
            update_latch locked m' (sub32 0 need) pid,
          )

      retry_adds :
          (d' : DmsFile) × (insert_retry os (suc fuel) d need (dump r) rid
            ≡ returns ((edb_ok, record { pid = pid; sid = length cs }), d'))
          × IsStore d' (assign f pid (cs ++ some (dump r) ∷ []))
          × (d'.rw_mutex ≡ unlocked)
      unfolding insert_retry
      retry_adds =
          let (e, run, store, held) = into_adds in
          (
            record e { rw_mutex = unlocked },
            rw (w_lock-free d.rw_mutex free, found, run, held, w_unlock-held),
            locked_IsStore e unlocked _ store,
            refl,
          )

      -- dmsFile::insert of a record with an `_id`, on a file that is a store with its latch free,
      -- where findPage gives a page whose gap takes record, header, slot and NUL: one round is
      -- enough, it returns EDB_OK, the record and its position behind the page's slots, the file
      -- is a store with the record there and nothing else changed, and the latch is free.
      pub insert-adds :
          (old : Json)
          → (d' : DmsFile) × (insert_record lib os (suc fuel) d r old rid
              ≡ returns (((edb_ok, record { pid = pid; sid = length cs }), d'), r))
            × IsStore d' (assign f pid (cs ++ some (dump r) ∷ []))
            × (d'.rw_mutex ≡ unlocked)
      unfolding insert_record
      insert-adds old =
          let (d', run, store, latch) = retry_adds in
          let (g, u) = Models-gap m cs models in
          let sized : length (dump r) % 2 ^ 32 + 8 + 4 ≡ need = omega (arith, models.room) in
          let small : ltb dms_max_record (length (dump r) % 2 ^ 32) ≡ false =
            le→ltb_false dms_max_record (length (dump r) % 2 ^ 32) (omega arith) in
          (d', rw (small, has_id, sized, run), store, latch)
