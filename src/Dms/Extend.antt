-- ===== src/Dms/Extend.antt =====
-- What extendSegment (dms/dms.cpp) adds to the store: a segment of pages without slots.
use edbc.Base.{
  ℕ, zero, suc, ◌+◌, ◌*◌, ◌-◌, ◌≤◌, ◌<◌, ◌≡◌, refl, sym, ap, ◌∙◌, inl, inr, some, List, [], ◌∷◌,
  ◌++◌, length, length-replicate, get_elem?, replicate, ltb, leb, ◌&&◌, if◌then◌else◌, Bool-cases,
  arith,
}
use mathlib.Core.Path.{subst}
use edbc.Base.Memory.{Memory, load32, store32}
use edbc.Base.Multimap.{Multimap, insert}
use edbc.Dms.Page.{fresh_page, dms_pagesize, page_header_size}
use edbc.Dms.Models.{fresh_page-Models}
use edbc.Dms.File.{DmsFile, page_to_offset, add_pages, push_segment, dms_pages_per_segment}
use edbc.Dms.Pages.{page_in_range}
use edbc.Dms.Store.{Contents, occurrences, occurrences-insert, Entries, Entries-insert, IsStore}
use edbc.Dms.Segment.{
  with_segment, more_length, page_old, page_new, IsWhole-more, holds_more, Entries-more,
}

-- Pages from `pid` on are each added once.
occurrences-add_pages :
    (k pid q : ℕ) (fm : Multimap ℕ)
    → occurrences q (add_pages k pid fm)
      ≡ (if leb pid q && ltb q (pid + k) then 1 else 0) + occurrences q fm
unfolding add_pages
occurrences-add_pages zero pid q fm = ground arith
occurrences-add_pages (suc k) pid q fm =
    occurrences-add_pages k (pid + 1) q (insert (dms_pagesize - page_header_size) pid fm)
    ∙ rw (occurrences-insert q (dms_pagesize - page_header_size) pid fm) (ground arith)

Entries-add_pages :
    (d : DmsFile) (k pid : ℕ) (fm : Multimap ℕ)
    → ((i : ℕ) → pid ≤ i → i < pid + k → page_to_offset d i ≡ some fresh_page)
    → Entries d fm
    → Entries d (add_pages k pid fm)
unfolding add_pages load32 fresh_page store32
Entries-add_pages d zero pid fm fresh h = h
Entries-add_pages d (suc k) pid fm fresh h =
    Entries-add_pages d k (pid + 1) _ (λ i lo hi. fresh i (omega arith) (omega arith))
      (Entries-insert d (dms_pagesize - page_header_size) pid fresh_page fm
        (fresh pid (omega arith) (omega arith)) fresh_page-Models.free h)

-- The map has only pages that are there.
occurrences_outside :
    (d : DmsFile) (q : ℕ) (fm : Multimap ℕ)
    → length d.body * 32 ≤ q
    → Entries d fm
    → occurrences q fm ≡ 0
unfolding occurrences
occurrences_outside d q [] out h = refl
occurrences_outside d q ((k, v) ∷ fm) out ((m, at, l), h) =
    ground (arith, page_in_range d v m at, occurrences_outside d q fm out h)

length-insert : (k v : ℕ) (fm : Multimap ℕ) → length (insert k v fm) ≡ suc (length fm)
unfolding insert
length-insert k v [] = refl
length-insert k v ((i, w) ∷ fm) = ground (arith, length-insert k v fm)

length-add_pages : (k pid : ℕ) (fm : Multimap ℕ) → length (add_pages k pid fm) ≡ k + length fm
unfolding add_pages
length-add_pages zero pid fm = omega arith
length-add_pages (suc k) pid fm = omega (
  arith,
  length-add_pages k (pid + 1) (insert (dms_pagesize - page_header_size) pid fm),
  length-insert (dms_pagesize - page_header_size) pid fm,
)

get_elem?-replicate {ℓ} :
    {A : Type ℓ} (n : ℕ) (a : A) (i : ℕ) → i < n → get_elem? (replicate n a) i ≡ some a
get_elem?-replicate zero a i h = absurd (omega arith)
get_elem?-replicate (suc n) a zero h = refl
get_elem?-replicate (suc n) a (suc i) h = get_elem?-replicate n a i (omega arith)

-- A new segment on a store: its pages are without slots, and each is once in the free space map.
-- The map has one entry for every page, so that the numbers from its length on are the new ones.
module _ (d : DmsFile) (f : Contents) (h : IsStore d f)
    (counted : length d.free_space_map ≡ length d.body * 32) where
  abbrev more : DmsFile
  more = push_segment d

  more_body : more.body ≡ d.body ++ replicate dms_pages_per_segment fresh_page ∷ []
  unfolding push_segment
  more_body = refl

  more_map : more.free_space_map ≡ add_pages 32 (length d.body * 32) d.free_space_map
  unfolding push_segment
  more_map = ap (λ n. add_pages 32 n d.free_space_map) counted

  abbrev pages : List Memory
  pages = replicate dms_pages_per_segment fresh_page

  pages_fresh : (i : ℕ) → i < 32 → get_elem? pages i ≡ some fresh_page
  pages_fresh = get_elem?-replicate 32 fresh_page

  fresh_more :
      (q : ℕ)
      → length d.body * 32 ≤ q
      → q < length d.body * 32 + 32
      → page_to_offset more q ≡ some fresh_page
  fresh_more = page_new d more pages more_body (length-replicate 32 fresh_page) pages_fresh

  once_more :
      (q : ℕ) (m : Memory) → page_to_offset more q ≡ some m → occurrences q more.free_space_map ≡ 1
  once_more q m at =
      let all = occurrences-add_pages 32 (length d.body * 32) q d.free_space_map in
      let inside = page_in_range more q m at in
      let grown = more_length d more pages more_body (length-replicate 32 fresh_page) pages_fresh in
      ap (occurrences q) more_map ∙ all ∙ elim (Bool-cases (ltb q (length d.body * 32))) [
        | inl t ↦
            let old : page_to_offset d q ≡ some m =
              sym (
                page_old d more pages more_body (length-replicate 32 fresh_page) pages_fresh q
                  (ground arith))
              ∙ at in
            ground (arith, h.once q m old)
        | inr t ↦ ground (
          arith,
          occurrences_outside d q d.free_space_map (ground arith) h.entries,
          inside,
          grown,
        )
      ]

  -- The part of extendSegment under the latch, on a store whose free space map has one entry for
  -- each page: the file is a store in which the 32 new pages hold no slot and the others what they
  -- held, and the map again has one entry for each page.
  pub push_segment-IsStore :
      IsStore (push_segment d) (with_segment (length d.body * 32) f)
      × (length (push_segment d).free_space_map ≡ length (push_segment d).body * 32)
  push_segment-IsStore = (
    record {
      whole =
          IsWhole-more d more pages more_body (length-replicate 32 fresh_page) pages_fresh h.whole;
      holds =
          holds_more d more pages more_body (length-replicate 32 fresh_page) pages_fresh f h.holds;
      once = once_more;
      entries = subst (Entries more) (sym more_map) (
          Entries-add_pages more 32 (length d.body * 32) d.free_space_map fresh_more (
            Entries-more d more pages more_body (length-replicate 32 fresh_page) pages_fresh
              d.free_space_map h.entries));
    },
    ap length more_map
        ∙ length-add_pages 32 (length d.body * 32) d.free_space_map
        ∙ omega (
          arith,
          more_length d more pages more_body (length-replicate 32 fresh_page) pages_fresh,
        ),
  )
