-- ===== src/Dms/Faults.antt =====
-- Paths of dmsFile (dms/dms.cpp) that leave the latch as it should not be.
use edbc.Base.{
  ℕ, suc, ◌+◌, ◌%◌, ◌^◌, ◌<◌, ◌≡◌, sym, ap, ◌∙◌, ◌⊎◌, inl, inr, Option-cases, Bool-cases, Bool,
  true, false, Option, none, some, not, ltb, leb, ◌==◌, length, if◌then◌else◌, arith,
}
use edbc.Base.Outcome.{Outcome, returns, throws, blocked, fault, starved, ◌>>=◌, Rc, is_ok}
use edbc.Base.Outcome.Rc.{edb_ok}
use edbc.Base.Latch.{
  unlocked, reading, r_lock, w_unlock, w_lock-blocked, w_unlock-fault, r_lock-free,
}
use edbc.Base.Memory.{Memory, load32}
use edbc.Base.Json.{JsonLib}
use edbc.Ixm.Bucket.{Rid}
use edbc.Dms.Page.{
  dms_max_record, dms_slot_empty, dms_pagesize, dms_record_flag_dropped, record_header_size,
  search_slot, record_text,
}
use edbc.Dms.File.{DmsFile, Os, page_to_offset, insert_retry, insert_record, find_at, find, remove}

module _ (lib : JsonLib) where
  open lib use {Json, dump, parse, id_field}

  -- Where the call returns, somebody holds the read latch.
  abbrev Kept : Outcome (Rc × Json × DmsFile) → Type 0
  Kept (returns (rc, row, e)) = 0 < e.rw_mutex.readers
  Kept throws = Unit {0}
  Kept blocked = Unit {0}
  Kept fault = Unit {0}
  Kept starved = Unit {0}

  if-Kept :
      (b : Bool) (x y : Outcome (Rc × Json × DmsFile)) → Kept x → Kept y → Kept (if b then x else y)
  if-Kept true x y h k = h
  if-Kept false x y h k = k

  bind-Kept {ℓ} :
      {A : Type ℓ} (o : Outcome A) (g : A → Outcome (Rc × Json × DmsFile))
      → ((a : A) → Kept (g a))
      → Kept (o >>= g)
  bind-Kept (returns a) g h = h a
  bind-Kept throws g h = tt
  bind-Kept blocked g h = tt
  bind-Kept fault g h = tt
  bind-Kept starved g h = tt

  parsed-Kept :
      (o : Option Json) (e : DmsFile)
      → 0 < e.rw_mutex.readers
      → Kept (elim o [ none ↦ throws | some row ↦ returns (edb_ok, row, e) ])
  parsed-Kept none e h = tt
  parsed-Kept (some row) e h = h

  find_at-Kept :
      (e : DmsFile) (m : Memory) (old : Json)
      → 0 < e.rw_mutex.readers
      → (r : Rc × ℕ) → Kept (find_at lib e m old r)
  find_at-Kept e m old ok (rc, slot) = if-Kept (not (is_ok rc)) _ _ ok (
      if-Kept (slot == dms_slot_empty) _ _ ok (
        if-Kept (leb (slot + record_header_size) dms_pagesize) _ _
          (if-Kept (load32 m (slot + 4) == dms_record_flag_dropped) _ _ ok (
            bind-Kept (record_text m slot)
              (λ text. elim (parse text) [ none ↦ throws | some row ↦ returns (edb_ok, row, e) ])
              (λ text. parsed-Kept (parse text) e ok)))
          tt))

  find-Kept : (d : DmsFile) (rid : Rid) (old : Json) → Kept (find lib d rid old)
  unfolding find
  find-Kept d rid old = elim (Bool-cases d.rw_mutex.writer) [
    | inl t ↦ let waits : r_lock d.rw_mutex ≡ blocked = unfold r_lock in ground arith in rw waits tt
    | inr t ↦
        let locked : DmsFile = record d { rw_mutex = reading d.rw_mutex } in
        let ok : 0 < locked.rw_mutex.readers = omega arith in
        rw (r_lock-free d.rw_mutex t) (elim (Option-cases (page_to_offset d rid.pid)) [
          | inl n ↦ rw n ok
          | inr (m, e) ↦ rw e (
              bind-Kept (search_slot m rid.sid 0) (find_at lib locked m old)
                (find_at-Kept locked m old ok))
        ])
  ]

  module _ (d d' : DmsFile) (rid : Rid) (old row : Json) (rc : Rc)
      (found : find lib d rid old ≡ returns (rc, row, d')) where
    held : 0 < d'.rw_mutex.readers
    held = rw found at (find-Kept d rid old)

    -- After a find that returns, with whatever code, remove on the file that it leaves waits for a
    -- latch that is not released.
    pub remove-blocked : (q : Rid) → remove lib d' q ≡ blocked
    unfolding remove
    remove-blocked q = rw (w_lock-blocked d'.rw_mutex held)

    -- After a find that returns, with whatever code, an insert on the file that it leaves waits
    -- for a latch that is not released, where the record has an `_id` and is not above
    -- DMS_MAX_RECORD.
    pub insert-blocked :
        (os : Os) (fuel : ℕ) (r field : Json) (q : Rid)
        → id_field r ≡ some field
        → ltb dms_max_record (length (dump r) % 2 ^ 32) ≡ false
        → insert_record lib os (suc fuel) d' r old q ≡ blocked
    unfolding insert_record insert_retry
    insert-blocked os fuel r field q has_id small =
        rw (small, has_id, insert_retry, w_lock-blocked d'.rw_mutex held)

  -- With the latch free, an insert of a record without an `_id`, or above DMS_MAX_RECORD, is
  -- undefined: it releases a latch that nobody holds.
  pub insert-unheld :
      (os : Os) (fuel : ℕ) (d : DmsFile) (r old : Json) (rid : Rid)
      → d.rw_mutex ≡ unlocked
      → (id_field r ≡ none) ⊎ (ltb dms_max_record (length (dump r) % 2 ^ 32) ≡ true)
      → insert_record lib os fuel d r old rid ≡ fault
  unfolding insert_record
  insert-unheld os fuel d r old rid free refused =
      let unlocks : w_unlock d.rw_mutex ≡ fault = ap w_unlock free ∙ w_unlock-fault in
      elim (Bool-cases (ltb dms_max_record (length (dump r) % 2 ^ 32))) [
        | inl t ↦ rw (t, unlocks)
        | inr t ↦ elim refused [
          | inl missing ↦ rw (t, missing, unlocks)
          | inr long ↦ let no : true ≡ false = sym long ∙ t in cc
        ]
      ]
