-- ===== src/Rtn/Loaded.antt =====
-- The loops of dmsFile::loadData (dms/dms.cpp) over the slots of a page and the pages of the first
-- segment, on pages that model lists of slots.
use edbc.Base.{
  ℕ, zero, suc, ◌+◌, ◌*◌, ◌≡◌, refl, sym, ap, ◌∙◌, inl, inr, false, Option, none, some, List, [],
  ◌∷◌, length, get_elem?, get_elem?-lt, get_or, get_elem?-get_or, ◌==◌, Bool-cases, le→leb, arith,
}
use mathlib.Core.Path.{subst}
use edbc.Base.Outcome.{returns}
use edbc.Base.Outcome.Rc.{edb_ok}
use edbc.Base.Bytes.{Bytes}
use edbc.Base.Memory.{Memory, load32}
use edbc.Base.Multimap.{Multimap, insert}
use edbc.Base.Json.{JsonLib}
use edbc.Ixm.Bucket.{Rid}
use edbc.Ixm.Manager.{HashManager}
use edbc.Dms.Page.{dms_pagesize, dms_slot_empty, slot_at, num_slots_at, free_space_at}
use edbc.Dms.Layout.{Slots}
use edbc.Dms.Models.{Models, Models-gap}
use edbc.Dms.Read.{slot_of}
use edbc.Dms.Store.{Contents}
use edbc.Dms.Load.{load_slots, load_pages}
use edbc.Dms.Loaded.{pages_map}
use edbc.Rtn.Cells.{cell, cell-inv, rid_eq}
use edbc.Rtn.Indexed.{Before, Named, Indexed, Indexed-same, load_record-Indexed}

module _ (lib : JsonLib) (hash_fn : Bytes → ℕ) (f : Contents) (named : Named lib hash_fn f) where
  module _ (m : Memory) (cs : Slots) (h : Models m cs) (j : ℕ) (page : f j ≡ some cs) where
    cell_is :
        (s : ℕ) (c : Option Bytes)
        → get_elem? cs s ≡ some c
        → cell f (record { pid = j; sid = s }) ≡ c
    cell_is s c e = rw (page, e)

    -- One round: an empty slot is passed over, and a record goes to the index.
    abbrev Loads : ℕ → ℕ → ℕ → HashManager → Type 0
    Loads k s e index =
        (index' : HashManager) × (load_slots lib hash_fn k s m j index ≡ returns (edb_ok, index'))
        × Indexed lib hash_fn f (Before j e) index'

    abbrev Rest : ℕ → ℕ → Type 0
    Rest k s =
        (index : HashManager)
        → Indexed lib hash_fn f (Before j s) index
        → Loads k s (length cs) index

    -- A slot without a record is done as soon as the ones before it are.
    module _ (s : ℕ) (index : HashManager) (blank : cell f (record { pid = j; sid = s }) ≡ none)
        (ix : Indexed lib hash_fn f (Before j s) index) where
      not_here : (p : Rid) (bs : Bytes) → cell f p ≡ some bs → Before j (s + 1) p → Before j s p
      not_here p bs at (inl lt) = inl lt
      not_here p bs at (inr (e, lt)) = elim (Bool-cases (p.sid == s)) [
        | inr u ↦ inr (e, ground arith)
        | inl u ↦
            let same : p ≡ record { pid = j; sid = s } = rid_eq p _ e (ground arith) in
            let no : none ≡ some bs = sym blank ∙ ap (cell f) (sym same) ∙ at in cc
      ]

      pass : Indexed lib hash_fn f (Before j (s + 1)) index
      pass =
          Indexed-same lib hash_fn f (Before j s) (Before j (s + 1)) index (λ p b. omega arith)
            not_here ix

    one_slot :
        (k s : ℕ) (c : Option Bytes) (index : HashManager)
        → get_elem? cs s ≡ some c
        → Indexed lib hash_fn f (Before j s) index
        → Rest k (s + 1)
        → Loads (suc k) s (length cs) index
    unfolding load_slots
    one_slot k s none index e ix rest =
        let lt = get_elem?-lt cs s none e in
        let word = slot_of m cs h s none e in
        let inside = le→leb (slot_at s + 4) dms_pagesize (omega (arith, Models-gap m cs h)) in
        let blank : cell f (record { pid = j; sid = s }) ≡ none = cell_is s none e in
        let (index', runs, done) = rest index (pass s index blank ix) in
        (index', rw (inside, word) runs, done)
    one_slot k s (some bs) index e ix rest =
        let lt = get_elem?-lt cs s (some bs) e in
        let (off, word, lo, hi, r) = slot_of m cs h s (some bs) e in
        let inside = le→leb (slot_at s + 4) dms_pagesize (omega (arith, Models-gap m cs h)) in
        let (mid, read, ix') =
          load_record-Indexed lib hash_fn f named j s index ix bs (cell_is s (some bs) e) m off hi
            r in
        let (index', runs, done) = rest mid ix' in
        let used : (off == dms_slot_empty) ≡ false = ground arith in
        (index', rw (inside, word, used, read) runs, done)

    slots_Indexed : (k s : ℕ) → s + k ≡ length cs → Rest k s
    unfolding load_slots
    slots_Indexed zero s e index ix =
        let all : s ≡ length cs = omega arith in
        (index, refl, subst (λ t. Indexed lib hash_fn f (Before j t) index) all ix)
    slots_Indexed (suc k) s e index ix =
        let at = get_elem?-get_or cs s none (omega arith) in
        one_slot k s (get_or cs s none) index at ix (slots_Indexed k (s + 1) (omega arith))

    -- The page after, where every position of this one is done.
    next_page :
        (index : HashManager)
        → Indexed lib hash_fn f (Before j (length cs)) index
        → Indexed lib hash_fn f (Before (j + 1) 0) index
    next_page index =
        Indexed-same lib hash_fn f (Before j (length cs)) (Before (j + 1) 0) index
          (λ p b. omega arith)
          (λ p bs at b.
            let (cs', here, found) = cell-inv f p bs at in
            elim (Bool-cases (p.pid == j)) [
              | inr u ↦ inl (ground arith)
              | inl u ↦
                  let e : p.pid ≡ j = ground arith in
                  let one : some cs' ≡ some cs = sym here ∙ ap f e ∙ page in
                  let same : cs' ≡ cs = cc in
                  let lt = get_elem?-lt cs' p.sid (some bs) found in inr (e, rw (← same) lt)
            ])

    page_Indexed :
        (index : HashManager)
        → Indexed lib hash_fn f (Before j 0) index
        → (index' : HashManager) × (load_slots lib hash_fn (load32 m num_slots_at) 0 m j index
            ≡ returns (edb_ok, index'))
          × Indexed lib hash_fn f (Before (j + 1) 0) index'
    page_Indexed index ix =
        let (index', runs, done) = slots_Indexed (length cs) 0 (omega arith) index ix in
        (index', rw (h.slots) runs, next_page index' done)

  -- The pages of the first segment from the `j`-th on: every record goes to the index, and every
  -- page to the free space map.
  pub pages_Indexed :
      (j : ℕ) (ms : List Memory) (fm : Multimap ℕ) (index : HashManager)
      → ((i : ℕ) (m : Memory)
          → get_elem? ms i ≡ some m
          → (cs : Slots) × (f (j + i) ≡ some cs) × Models m cs)
      → Indexed lib hash_fn f (Before j 0) index
      → (index' : HashManager) × (load_pages lib hash_fn 0 j ms fm index
          ≡ returns (edb_ok, pages_map j ms fm, index'))
        × Indexed lib hash_fn f (Before (j + length ms) 0) index'
  unfolding load_pages pages_map
  pages_Indexed j [] fm index hold ix =
      (index, refl, subst (λ t. Indexed lib hash_fn f (Before t 0) index) (omega arith) ix)
  pages_Indexed j (m ∷ ms) fm index hold ix =
      let (cs, page, h) = hold 0 m refl in
      let at : f j ≡ some cs = ap f (omega arith) ∙ page in
      let (mid, read, ix') = page_Indexed m cs h j at index ix in
      let (index', runs, done) =
        pages_Indexed (j + 1) ms (insert (load32 m free_space_at) j fm) mid
          (λ i n e. let (c, p, q) = hold (suc i) n e in (c, ap f (omega arith) ∙ p, q)) ix' in
      let number : (0 + 1) * j ≡ j = omega arith in
      (
        index',
        rw (read, number) runs,
        subst (λ t. Indexed lib hash_fn f (Before t 0) index') (omega arith) done,
      )
