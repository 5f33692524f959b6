-- ===== src/Dms/Loaded.antt =====
-- The free space map that dmsFile::loadData (dms/dms.cpp) builds from the pages of one segment.
use edbc.Base.{
  ℕ, suc, ◌+◌, ◌≡◌, refl, ap, ◌∙◌, some, List, [], ◌∷◌, length, get_elem?, ltb, leb, ◌&&◌,
  if◌then◌else◌, arith,
}
use edbc.Base.Memory.{Memory, load32}
use edbc.Base.Multimap.{Multimap, insert}
use edbc.Dms.Page.{free_space_at}
use edbc.Dms.File.{DmsFile, page_to_offset}
use edbc.Dms.Store.{occurrences, occurrences-insert, Entries, Entries-insert}

-- The pages from number `j` on, each under its free space.
unfoldable pub pages_map : ℕ → List Memory → Multimap ℕ → Multimap ℕ
pages_map j [] fm = fm
pages_map j (m ∷ ms) fm = pages_map (j + 1) ms (insert (load32 m free_space_at) j fm)

-- Each page is added once.
pub occurrences-pages_map :
    (j q : ℕ) (ms : List Memory) (fm : Multimap ℕ)
    → occurrences q (pages_map j ms fm)
      ≡ (if leb j q && ltb q (j + length ms) then 1 else 0) + occurrences q fm
unfolding pages_map
occurrences-pages_map j q [] fm = ground arith
occurrences-pages_map j q (m ∷ ms) fm =
    occurrences-pages_map (j + 1) q ms (insert (load32 m free_space_at) j fm)
    ∙ rw (occurrences-insert q (load32 m free_space_at) j fm) (ground arith)

pub Entries-pages_map :
    (d : DmsFile) (j : ℕ) (ms : List Memory) (fm : Multimap ℕ)
    → ((i : ℕ) (m : Memory) → get_elem? ms i ≡ some m → page_to_offset d (j + i) ≡ some m)
    → Entries d fm
    → Entries d (pages_map j ms fm)
unfolding pages_map
Entries-pages_map d j [] fm at h = h
Entries-pages_map d j (m ∷ ms) fm at h =
    Entries-pages_map d (j + 1) ms _ (λ i n e. ap (page_to_offset d) (omega arith) ∙ at (suc i) n e)
      (Entries-insert d (load32 m free_space_at) j m fm
        (ap (page_to_offset d) (omega arith) ∙ at 0 m refl) refl h)
