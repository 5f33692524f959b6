-- ===== src/Dms/Pages.antt =====
-- Access to the pages of the data file by their numbers: pageToOffset of include/dms.hpp.
use edbc.Base.{
  ℕ, ◌*◌, ◌/◌, ◌%◌, ◌<◌, ◌≡◌, ◌≢◌, inl, inr, some, [], length, get_or, set, ◌==◌, Bool-cases,
  lt→leb_false, get_elem?-set_self, get_elem?-set_ne, get_or-set_self, get_or-set_ne, length-set,
  arith,
}
use edbc.Base.Memory.{Memory}
use edbc.Dms.File.{DmsFile, page_to_offset, put_page}

-- Every segment has its 32 pages.
abbrev pub IsWhole : DmsFile → Type 0
IsWhole d = (s : ℕ) → s < length d.body → length (get_or d.body s []) ≡ 32

pub page_in_range :
    (d : DmsFile) (pid : ℕ) (m : Memory) → page_to_offset d pid ≡ some m → pid < length d.body * 32
unfolding page_to_offset
page_in_range d pid m e = ground arith

module _ (d : DmsFile) (whole : IsWhole d) (pid : ℕ) (m : Memory) where
  module _ (inside : pid < length d.body * 32) where
    pub put_page_self : page_to_offset (put_page d pid m) pid ≡ some m
    unfolding page_to_offset put_page
    put_page_self =
        let seg = get_or d.body (pid / 32) [] in
        rw
          (
            length-set d.body (pid / 32) (set seg (pid % 32) m),
            lt→leb_false (length d.body * 32) pid inside,
            get_or-set_self d.body (pid / 32) (set seg (pid % 32) m) [] (omega arith),
          )
          (get_elem?-set_self seg (pid % 32) m (omega (arith, whole (pid / 32) (omega arith))))

    pub put_page-other :
        (q : ℕ) → pid ≢ q → page_to_offset (put_page d pid m) q ≡ page_to_offset d q
    unfolding page_to_offset put_page
    put_page-other q ne =
        let seg = get_or d.body (pid / 32) [] in
        rw (length-set d.body (pid / 32) (set seg (pid % 32) m))
          (elim (Bool-cases (pid / 32 == q / 32)) [
            | inl e ↦
                let same : pid / 32 ≡ q / 32 = ground arith in
                rw (
                  ← same,
                  get_or-set_self d.body (pid / 32) (set seg (pid % 32) m) [] (omega arith),
                  get_elem?-set_ne seg {i = pid % 32} {j = q % 32} m (omega arith),
                )
            | inr e ↦
                rw (
                  get_or-set_ne d.body (pid / 32) (q / 32) (set seg (pid % 32) m) [] (ground arith))
          ])

  pub put_page-IsWhole : IsWhole (put_page d pid m)
  unfolding put_page
  put_page-IsWhole s lt =
      let seg = get_or d.body (pid / 32) [] in
      let inside : s < length d.body =
        omega (arith, length-set d.body (pid / 32) (set seg (pid % 32) m)) in
      elim (Bool-cases (pid / 32 == s)) [
        | inl e ↦
            let same : pid / 32 ≡ s = ground arith in
            rw
              (
                ← same,
                get_or-set_self d.body (pid / 32) (set seg (pid % 32) m) [] (omega arith),
                length-set seg (pid % 32) m,
              )
              (whole (pid / 32) (omega arith))
        | inr e ↦
            rw (get_or-set_ne d.body (pid / 32) s (set seg (pid % 32) m) [] (ground arith))
              (whole s inside)
      ]
