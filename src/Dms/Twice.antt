-- ===== src/Dms/Twice.antt =====
-- dmsFile::loadData (dms/dms.cpp) on a file of two segments or more: the pages are numbered from 0
-- in each of them.
use edbc.Base.{
  ℕ, zero, suc, ◌+◌, ◌*◌, ◌/◌, ◌%◌, ◌^◌, ◌≤◌, ◌<◌, ◌≡◌, refl, ap, ◌∙◌, inl, inr, Bool, true, false,
  Option, none, some, List, [], ◌∷◌, ◌++◌, length, length-append, get_elem?, get_or,
  get_elem?-get_or, ltb, leb, ◌==◌, if◌then◌else◌, Bool-cases, Option-cases, lt→ltb, lt→leb_false,
  arith,
}
use edbc.Base.Outcome.{Outcome, returns, ◌>>=◌, >>=-eq-returns, Rc, is_ok}
use edbc.Base.Outcome.Rc.{edb_ok}
use edbc.Base.Bytes.{Bytes}
use edbc.Base.Memory.{Memory, load32}
use edbc.Base.Multimap.{Multimap, insert}
use edbc.Base.Json.{JsonLib}
use edbc.Ixm.Manager.{HashManager}
use edbc.Dms.Page.{num_slots_at, free_space_at}
use edbc.Dms.File.{
  DmsFile, Os, page_to_offset, map_range, dms_file_header_size, dms_file_segment_size,
}
use edbc.Dms.Store.{Contents, IsStore, occurrences, occurrences-insert}
use edbc.Dms.Load.{Disk, opened_file, load_slots, load_pages, load_segments, load_body, load_data}

code_of : (rc : Rc) → is_ok rc ≡ true → rc ≡ edb_ok
code_of edb_ok e = refl
code_of rc e = cc

-- The number that the code gives a page is 0 for the first page of a segment only.
number_zero : (i j : ℕ) → ((i + 1) * j == 0) ≡ (j == 0)
number_zero i zero = ground arith
number_zero i (suc j) = grind arith

module _ (lib : JsonLib) (hash_fn : Bytes → ℕ) where
  abbrev first : ℕ → List Memory → ℕ
  first j [] = 0
  first j (m ∷ ms) = if j == 0 then 1 else 0

  first_past : (j : ℕ) (ms : List Memory) → first (j + 1) ms ≡ 0
  first_past j [] = refl
  first_past j (m ∷ ms) = ground arith

  zero-load_pages :
      (i j : ℕ) (ms : List Memory) (fm fm' : Multimap ℕ) (index index' : HashManager)
      → load_pages lib hash_fn i j ms fm index ≡ returns (edb_ok, fm', index')
      → occurrences 0 fm' ≡ first j ms + occurrences 0 fm
  unfolding load_pages
  zero-load_pages i j [] fm fm' index index' h =
      let e : fm ≡ fm' = cc in omega (arith, ap (occurrences 0) e)
  zero-load_pages i j (m ∷ ms) fm fm' index index' h =
      let (x, read, rest) =
        >>=-eq-returns (load_slots lib hash_fn (load32 m num_slots_at) 0 m j index) _ h in
      elim (Bool-cases (is_ok x.0)) [
        | inr t ↦
            let no = (rw t at rest) in
            let code : x.0 ≡ edb_ok = cc in let yes_ok : is_ok x.0 ≡ true = ap is_ok code in cc
        | inl t ↦
            let go = (rw t at rest) in
            let fm₁ = insert (load32 m free_space_at) ((i + 1) * j) fm in
            let more = zero-load_pages i (j + 1) ms fm₁ fm' x.1 index' go in
            let none_left : first (j + 1) ms ≡ 0 = first_past j ms in
            let added = occurrences-insert 0 (load32 m free_space_at) ((i + 1) * j) fm in
            more ∙ rw (none_left, added, number_zero i j) (omega arith)
      ]

  first_full : (ps : List Memory) → length ps ≡ 32 → first 0 ps ≡ 1
  first_full [] e = absurd (omega arith)
  first_full (p ∷ ps) e = refl

  -- One segment that is loaded, with what the loop does afterwards.
  one_segment :
      (i : ℕ) (ps : List Memory) (fm : Multimap ℕ) (index : HashManager) (d' : DmsFile)
      (index' : HashManager) (k : Multimap ℕ → HashManager → Outcome (Rc × DmsFile × HashManager))
      (bad : Multimap ℕ → DmsFile)
      → length ps ≡ 32
      → (load_pages lib hash_fn i 0 ps fm index >>= (λ x.
          elim (is_ok x.0) as (λ _. Outcome (Rc × DmsFile × HashManager)) [
            | true ↦ k x.1 x.2
            | false ↦ returns (x.0, bad x.1, x.2)
          ]))
        ≡ returns (edb_ok, d', index')
      → (fm' : Multimap ℕ) × (mid : HashManager) × (k fm' mid ≡ returns (edb_ok, d', index'))
        × (occurrences 0 fm' ≡ 1 + occurrences 0 fm)
  one_segment i ps fm index d' index' k bad full h =
      let (x, read, rest) = >>=-eq-returns (load_pages lib hash_fn i 0 ps fm index) _ h in
      elim (Bool-cases (is_ok x.0)) [
        | inr v ↦
            let no = (rw v at rest) in
            let code : x.0 ≡ edb_ok = cc in let good : is_ok x.0 ≡ true = ap is_ok code in cc
        | inl v ↦
            let done : load_pages lib hash_fn i 0 ps fm index ≡ returns (edb_ok, x.1, x.2) =
              read ∙ ap (λ c. returns (c, x.1, x.2)) (code_of x.0 v) in
            let one = zero-load_pages i 0 ps fm x.1 index x.2 done in
            (x.1, x.2, (rw v at rest), omega (arith, one, first_full ps full))
      ]

  module _ (os : Os) (disk : Disk)
      (full : (i : ℕ) (ps : List Memory)
        → get_elem? disk.segments i ≡ some ps
        → length ps ≡ 32) where
    next_kept :
        (i : ℕ) (mapped : Bool) (mapping : Option (List Memory))
        → ((ps : List Memory) → mapping ≡ some ps → length ps ≡ 32)
        → (ps : List Memory) → (if mapped then get_elem? disk.segments i else mapping) ≡ some ps
        → length ps ≡ 32
    next_kept i true mapping kept = full i
    next_kept i false mapping kept = kept

    -- Every segment adds page 0 to the free space map.
    zero-load_segments :
        (k i : ℕ) (mapping : Option (List Memory)) (d d' : DmsFile) (index index' : HashManager)
        → ((ps : List Memory) → mapping ≡ some ps → length ps ≡ 32)
        → load_segments lib hash_fn k i os disk mapping d index ≡ returns (edb_ok, d', index')
        → (occurrences 0 d'.free_space_map ≡ k + occurrences 0 d.free_space_map)
          × (length d'.body ≡ k + length d.body)
    unfolding load_segments
    zero-load_segments zero i mapping d d' index index' kept h =
        let e : d ≡ d' = cc in
        (
          omega (arith, ap (λ (x : DmsFile). occurrences 0 x.free_space_map) e),
          omega (arith, ap (λ (x : DmsFile). length x.body) e),
        )
    zero-load_segments (suc k) i mapping d d' index index' kept h =
        let offset = dms_file_header_size + i * dms_file_segment_size in
        let range = map_range os disk.file_size offset dms_file_segment_size in
        elim (Bool-cases (leb (2 ^ 31) offset)) [
          | inl t ↦ let no = (rw t at h) in cc
          | inr t ↦ elim (Bool-cases (is_ok range.0)) [
            | inr u ↦
                let no = (rw (t, u) at h) in
                let code : range.0 ≡ edb_ok = cc in
                let good : is_ok range.0 ≡ true = ap is_ok code in cc
            | inl u ↦ elim (Option-cases (if range.1 then get_elem? disk.segments i else mapping)) [
              | inl n ↦ let no = (rw (t, u, n) at h) in cc
              | inr (ps, at) ↦
                  let go = (rw (t, u, at) at h) in
                  let whole = next_kept i range.1 mapping kept ps at in
                  let (fm', mid, next, one) =
                    one_segment i ps d.free_space_map index d' index'
                      (λ fm₁ ix₁.
                        load_segments lib hash_fn k (i + 1) os disk
                          (if range.1 then get_elem? disk.segments i else mapping)
                          (record d { body = d.body ++ ps ∷ []; free_space_map = fm₁ }) ix₁)
                      (λ fm₁. record d { body = d.body ++ ps ∷ []; free_space_map = fm₁ }) whole
                      go in
                  let (count, size) =
                    zero-load_segments k (i + 1)
                      (if range.1 then get_elem? disk.segments i else mapping)
                      (record d { body = d.body ++ ps ∷ []; free_space_map = fm' }) d' mid index'
                      (next_kept i range.1 mapping kept) next in
                  (omega (arith, count, one), omega (arith, size, length-append d.body (ps ∷ [])))
            ]
          ]
        ]

    -- What a run that succeeds has in the free space map.
    body_count :
        (d : DmsFile) (index index' : HashManager)
        → disk.header_pages < 2 ^ 31
        → load_body lib hash_fn os disk index ≡ returns (edb_ok, d, index')
        → (occurrences 0 d.free_space_map ≡ disk.header_pages / 32)
          × (length d.body ≡ disk.header_pages / 32)
    unfolding load_body occurrences
    body_count d index index' few h =
        let n = disk.header_pages in
        let small : ltb n (2 ^ 31) ≡ true = lt→ltb n (2 ^ 31) few in
        elim (Bool-cases (n % 32 == 0)) [
          | inr t ↦ let no = (rw t at h) in cc
          | inl t ↦
              let go = (rw (t, small) at h) in
              let (count, size) =
                zero-load_segments (n / 32) 0 none (opened_file disk) d index index'
                  (λ ps e. let no : none ≡ some ps = e in cc) go in
              (omega (arith, count), omega (arith, size))
        ]

    reaches_body :
        (header : Bool) (d : DmsFile) (index index' : HashManager)
        → load_data lib hash_fn os disk header index ≡ returns (edb_ok, d, index')
        → load_body lib hash_fn os disk index ≡ returns (edb_ok, d, index')
    unfolding load_data
    reaches_body true d index index' h = h
    reaches_body false d index index' h =
        let range = map_range os disk.file_size 0 dms_file_header_size in
        elim (Bool-cases (is_ok range.0)) [
          | inr t ↦
              let no = (rw t at h) in
              let code : range.0 ≡ edb_ok = cc in
              let good : is_ok range.0 ≡ true = ap is_ok code in cc
          | inl t ↦ elim (Bool-cases range.1) [
            | inr u ↦ let no = (rw (t, u) at h) in cc
            | inl u ↦ (rw (t, u) at h)
          ]
        ]

    page_of_start :
        (d : DmsFile)
        → 0 < length d.body
        → 0 < length (get_or d.body 0 [])
        → page_to_offset d 0 ≡ some (get_or (get_or d.body 0 []) 0 (λ _. 0))
    unfolding page_to_offset
    page_of_start d some_body some_page =
        rw (lt→leb_false (length d.body * 32) 0 (omega arith))
          (get_elem?-get_or (get_or d.body 0 []) 0 (λ _. 0) some_page)

    -- loadData of two segments or more that have 32 pages each in the file, and fewer than 2^31
    -- pages: wherever it succeeds, page 0 is in the free space map once for each segment, and the
    -- file is no store, whatever its pages hold.
    pub load_data-twice :
        (header : Bool) (d : DmsFile) (index index' : HashManager) (f : Contents)
        → load_data lib hash_fn os disk header index ≡ returns (edb_ok, d, index')
        → 64 ≤ disk.header_pages
        → disk.header_pages < 2 ^ 31
        → (occurrences 0 d.free_space_map ≡ disk.header_pages / 32) × ¬ (IsStore d f)
    load_data-twice header d index index' f h many few =
        let (count, size) = body_count d index index' few (reaches_body header d index index' h) in
        (
          count,
          λ s.
              let seg = get_or d.body 0 [] in
              let whole : length seg ≡ 32 = s.whole 0 (omega arith) in
              let at = page_of_start d (omega arith) (omega arith) in
              omega (arith, s.once 0 (get_or seg 0 (λ _. 0)) at, count),
        )
