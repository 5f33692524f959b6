-- ===== src/Dms/Segment.antt =====
-- The pages of a file with one segment more (dms/dms.cpp).
use edbc.Base.{
  ℕ, zero, suc, ◌+◌, ◌*◌, ◌/◌, ◌%◌, ◌≤◌, ◌<◌, ◌≡◌, refl, ap, ◌∙◌, inl, inr, none, some, List, [],
  ◌∷◌, ◌++◌, length, length-append, get_elem?, get_or, ltb, leb, ◌&&◌, if◌then◌else◌, Bool-cases,
  lt→leb_false, le→leb, arith,
}
use edbc.Base.Memory.{Memory}
use edbc.Base.Multimap.{Multimap}
use edbc.Dms.Page.{fresh_page}
use edbc.Dms.Models.{fresh_page-Models}
use edbc.Dms.File.{DmsFile, page_to_offset}
use edbc.Dms.Pages.{IsWhole, page_in_range}
use edbc.Dms.Store.{Contents, PageHolds, Entries}

get_or-append_left {ℓ} :
    {A : Type ℓ} (xs ys : List A) (i : ℕ) (d : A)
    → i < length xs
    → get_or (xs ++ ys) i d ≡ get_or xs i d
get_or-append_left [] ys i d h = absurd (omega arith)
get_or-append_left (x ∷ xs) ys zero d h = refl
get_or-append_left (x ∷ xs) ys (suc i) d h = get_or-append_left xs ys i d (omega arith)

get_or-append_end {ℓ} :
    {A : Type ℓ} (xs : List A) (y d : A) → get_or (xs ++ y ∷ []) (length xs) d ≡ y
get_or-append_end [] y d = refl
get_or-append_end (x ∷ xs) y d = get_or-append_end xs y d

-- The contents with a new segment behind `n` pages.
abbrev pub with_segment : ℕ → Contents → Contents
with_segment n f q = if leb n q && ltb q (n + 32) then some [] else f q

pub outside_none : (d : DmsFile) (q : ℕ) → length d.body * 32 ≤ q → page_to_offset d q ≡ none
unfolding page_to_offset
outside_none d q h = rw (le→leb (length d.body * 32) q h)

module _ (d e : DmsFile) (seg : List Memory) (body : e.body ≡ d.body ++ seg ∷ [])
    (size : length seg ≡ 32) (fresh : (i : ℕ) → i < 32 → get_elem? seg i ≡ some fresh_page) where
  pub more_length : length e.body ≡ length d.body + 1
  more_length = ap length body ∙ length-append d.body (seg ∷ [])

  pub old_segment : (s : ℕ) → s < length d.body → get_or e.body s [] ≡ get_or d.body s []
  old_segment s h = ap (λ b. get_or b s []) body ∙ get_or-append_left d.body (seg ∷ []) s [] h

  pub new_segment : get_or e.body (length d.body) [] ≡ seg
  new_segment = ap (λ b. get_or b (length d.body) []) body ∙ get_or-append_end d.body seg []

  pub page_old : (q : ℕ) → q < length d.body * 32 → page_to_offset e q ≡ page_to_offset d q
  unfolding page_to_offset
  page_old q h = rw (
    more_length,
    lt→leb_false ((length d.body + 1) * 32) q (omega arith),
    lt→leb_false (length d.body * 32) q h,
    old_segment (q / 32) (omega arith),
  )

  pub page_new :
      (q : ℕ)
      → length d.body * 32 ≤ q
      → q < length d.body * 32 + 32
      → page_to_offset e q ≡ some fresh_page
  unfolding page_to_offset
  page_new q lo hi =
      let last : q / 32 ≡ length d.body = omega arith in
      rw (more_length, lt→leb_false ((length d.body + 1) * 32) q (omega arith), last, new_segment)
        (fresh (q % 32) (omega arith))

  pub page_past : (q : ℕ) → length d.body * 32 + 32 ≤ q → page_to_offset e q ≡ none
  unfolding page_to_offset
  page_past q h = rw (more_length, le→leb ((length d.body + 1) * 32) q (omega arith))

  pub IsWhole-more : IsWhole d → IsWhole e
  IsWhole-more w s h = elim (Bool-cases (ltb s (length d.body))) [
    | inl t ↦ ap length (old_segment s (ground arith)) ∙ w s (ground arith)
    | inr t ↦
        let last : s ≡ length d.body = ground (arith, more_length) in
        ap (λ i. length (get_or e.body i [])) last ∙ ap length new_segment ∙ size
  ]

  pub holds_more :
      (f : Contents)
      → ((q : ℕ) → PageHolds (page_to_offset d q) (f q))
      → (q : ℕ) → PageHolds (page_to_offset e q) (with_segment (length d.body * 32) f q)
  holds_more f h q =
      elim (Bool-cases (leb (length d.body * 32) q && ltb q (length d.body * 32 + 32))) [
        | inl t ↦ rw (t, page_new q (ground arith) (ground arith)) fresh_page-Models
        | inr t ↦ rw t (elim (Bool-cases (ltb q (length d.body * 32))) [
          | inl u ↦ rw (page_old q (ground arith)) (h q)
          | inr u ↦
              let out : page_to_offset d q ≡ none = outside_none d q (ground arith) in
              rw (page_past q (ground arith)) (rw out at (h q))
        ])
      ]

  pub Entries-more : (fm : Multimap ℕ) → Entries d fm → Entries e fm
  Entries-more [] h = tt
  Entries-more ((k, v) ∷ fm) ((m, at, l), h) =
      ((m, page_old v (page_in_range d v m at) ∙ at, l), Entries-more fm h)
