-- ===== src/Tests/Loading.antt =====
-- Data files that are opened: a new one, one of a segment, and one of two.
use edbc.Base.{
  ℕ, zero, suc, ◌/◌, ◌≤◌, ◌<◌, ◌≡◌, refl, sym, ap, true, none, some, List, [], ◌∷◌, length,
  get_elem?, ltb, ◌↔◌, ◌∙◌, inl, inr, Bool-cases, arith,
}
use edbc.Base.Outcome.{returns}
use edbc.Base.Outcome.Rc.{edb_ok}
use edbc.Base.Memory.{Memory, load32, store32, store_bytes, store8, le32}
use edbc.Base.Multimap.{insert}
use edbc.Ixm.Manager.{HashManager, init}
use edbc.Dms.Page.{fresh_page}
use edbc.Dms.File.{DmsFile, map_range}
use edbc.Dms.Store.{IsStore, occurrences}
use edbc.Dms.Load.{Disk, load_data, load_body, load_segments, load_pages, load_slots}
use edbc.Dms.Twice.{load_data-twice}
use edbc.Dms.Layout.{Slots}
use edbc.Dms.Models.{Models, fresh_page-Models}
use edbc.Ixm.Bucket.{Rid}
use edbc.Ixm.Index.{view}
use edbc.Base.Bytes.{Bytes}
use mathlib.Core.Path.{subst}
use edbc.Rtn.Methods.{Rtn}
use edbc.Rtn.Cells.{cell, cell-inv, rid_eq}
use edbc.Rtn.Database.{IsDb, db_at}
use edbc.Rtn.Indexed.{HasId, Named}
use edbc.Rtn.Init.{ready, rtn_init}
use edbc.Rtn.Fresh.{no_pages, rtn_init-creates}
use edbc.Rtn.Restore.{rtn_init-restores}
use edbc.Tests.Storage.{page_two, page_two-Models}
use edbc.Tests.Records.{two, with_two}
use edbc.Tests.Fixtures.{numbers, hash_length, willing, new_index, blank_pages}

abbrev blank : ℕ → List Memory
blank zero = []
blank (suc n) = fresh_page ∷ blank n

-- The length of two segments and the header.
abbrev two_segments : Disk
two_segments = record {
  file_size = 268500992;
  header_pages = 64;
  segments = blank 32 ∷ blank 32 ∷ [];
}

loaded :
    (d : DmsFile) × (index : HashManager) × (load_data numbers hash_length willing two_segments true
        new_index
      ≡ returns (edb_ok, d, index))
unfolding load_data load_body load_segments load_pages load_slots map_range insert load32 fresh_page
    store32 store_bytes store8 le32 init
loaded = (_, _, refl)

two_segments_full :
    (i : ℕ) (ps : List Memory) → get_elem? two_segments.segments i ≡ some ps → length ps ≡ 32
two_segments_full zero ps e = let same : blank 32 ≡ ps = cc in ap length (sym same)
two_segments_full (suc zero) ps e = let same : blank 32 ≡ ps = cc in ap length (sym same)
two_segments_full (suc (suc i)) ps e = cc

load_data-twice_example :
    (occurrences 0 (loaded.0).free_space_map ≡ 64 / 32) × ¬ (IsStore (loaded.0) blank_pages)
load_data-twice_example =
    load_data-twice numbers hash_length willing two_segments two_segments_full true (loaded.0)
      new_index (loaded.1) blank_pages (loaded.2) (omega arith) (omega arith)

rtn_init-creates_example :
    (s : Rtn) × (rtn_init numbers hash_length willing ready 2
        (record { file_size = 0; header_pages = 0; segments = [] })
      ≡ returns (edb_ok, some s))
    × IsDb numbers hash_length s no_pages
    × (s.file.file_size ≡ 65536)
    × ((id : Bytes) → view hash_length s.index id ≡ none)
rtn_init-creates_example = rtn_init-creates willing refl (λ n. refl) refl numbers hash_length 0

-- A file of one segment, with the object 2 in its first page.
abbrev pages_two : List Memory
pages_two = page_two ∷ blank 31

blank_fresh : (n i : ℕ) (m : Memory) → get_elem? (blank n) i ≡ some m → (i < n) × (fresh_page ≡ m)
blank_fresh zero i m e = cc
blank_fresh (suc n) zero m e = (omega arith, cc)
blank_fresh (suc n) (suc i) m e = let (lt, same) = blank_fresh n i m e in (omega arith, same)

held_two :
    (i : ℕ) (m : Memory)
    → get_elem? pages_two i ≡ some m
    → (cs : Slots) × (with_two i ≡ some cs) × Models m cs
held_two zero m e =
    let same : page_two ≡ m = cc in
    (some two ∷ [], refl, subst (λ x. Models x (some two ∷ [])) same page_two-Models)
held_two (suc i) m e =
    let (lt, same) = blank_fresh 31 i m e in
    ([], ground arith, subst (λ x. Models x []) same fresh_page-Models)

outside_two : (q : ℕ) → 32 ≤ q → with_two q ≡ none
outside_two q h = ground arith

-- The only record.
blank_empty : (p : ℕ) (cs : Slots) → with_two (suc p) ≡ some cs → cs ≡ []
blank_empty p cs e = elim (Bool-cases (ltb (suc p) 32)) [
  | inl t ↦
      let f : with_two (suc p) ≡ some [] = ground arith in
      let e' : some [] ≡ some cs = sym f ∙ e in cc
  | inr t ↦
      let f : with_two (suc p) ≡ none = ground arith in let e' : none ≡ some cs = sym f ∙ e in cc
]

only_at :
    (p s : ℕ) (bs : Bytes)
    → cell with_two (record { pid = p; sid = s }) ≡ some bs
    → (p ≡ 0) × (s ≡ 0) × (two ≡ bs)
only_at zero zero bs e = (refl, refl, cc)
only_at zero (suc s) bs e = cc
only_at (suc p) s bs e =
    let (cs, here, at) = cell-inv with_two (record { pid = suc p; sid = s }) bs e in
    let no : none ≡ some (some bs) =
      ap (λ (x : Slots). get_elem? x s) (sym (blank_empty p cs here)) ∙ at in
    cc

Named-two : Named numbers hash_length with_two
Named-two = record {
  has_id = λ rid bs e. let (_, _, same) = only_at rid.pid rid.sid bs e in (2, 2, sym same, refl);
  unique = λ p q id k l.
      let (p0, s0, _) = only_at p.pid p.sid (k.0) (k.1) in
      let (p1, s1, _) = only_at q.pid q.sid (l.0) (l.1) in rid_eq p q (p0 ∙ sym p1) (s0 ∙ sym s1);
}

rtn_init-restores_example :
    (s : Rtn) × (rtn_init numbers hash_length willing ready 1
        (record { file_size = 134283264; header_pages = 32; segments = pages_two ∷ [] })
      ≡ returns (edb_ok, some s))
    × IsDb numbers hash_length s with_two
    × ((id bs : Bytes)
        → (db_at numbers hash_length s with_two id ≡ some bs)
          ↔ ((rid : Rid) × (cell with_two rid ≡ some bs) × HasId numbers hash_length bs id))
rtn_init-restores_example =
    rtn_init-restores 134283264 pages_two with_two refl held_two outside_two numbers hash_length
      Named-two willing (omega arith) (omega arith) refl (λ n. refl) 0
