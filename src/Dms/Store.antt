-- ===== src/Dms/Store.antt =====
-- When the data file of dms/dms.cpp holds pages of slots, with each page once in the free space map.
use edbc.Base.{
  ℕ, ◌+◌, ◌≡◌, ◌≢◌, refl, sym, ap, ◌∙◌, inl, inr, false, Option, none, some, [], ◌∷◌, ltb, ◌==◌,
  ◌&&◌, if◌then◌else◌, Bool-cases, ==_refl, arith,
}
use mathlib.Core.Path.{subst}
use edbc.Base.Memory.{Memory, load32}
use edbc.Base.Multimap.{Multimap, insert, erase_in_range}
use edbc.Dms.Page.{free_space_at, add_free_space}
use edbc.Dms.Layout.{Slots}
use edbc.Dms.Models.{Models}
use edbc.Dms.File.{DmsFile, page_to_offset, put_page, update_free_space}
use edbc.Dms.Pages.{IsWhole, page_in_range, put_page_self, put_page-other, put_page-IsWhole}

-- The slots of each page, by its number.
abbrev pub Contents : Type 0
Contents = ℕ → Option Slots

abbrev pub assign : Contents → ℕ → Slots → Contents
assign f pid cs q = if pid == q then some cs else f q

abbrev pub PageHolds : Option Memory → Option Slots → Type 0
PageHolds none none = Unit {0}
PageHolds none (some cs) = ⊥
PageHolds (some m) none = ⊥
PageHolds (some m) (some cs) = Models m cs

some_inj {ℓ} : {A : Type ℓ} {a b : A} → some a ≡ some b → a ≡ b
some_inj e = cc

-- How often the map has the page.
unfoldable pub occurrences : ℕ → Multimap ℕ → ℕ
occurrences pid [] = 0
occurrences pid ((k, v) ∷ fm) = (if v == pid then 1 else 0) + occurrences pid fm

-- Every entry is under the free space of its page.
abbrev pub Entries : DmsFile → Multimap ℕ → Type 0
Entries d [] = Unit {0}
Entries d ((k, v) ∷ fm) =
    ((m : Memory) × (page_to_offset d v ≡ some m) × (load32 m free_space_at ≡ k)) × Entries d fm

pub record IsStore (d : DmsFile) (f : Contents) : Type 0 where
  pub whole : IsWhole d
  pub holds : (pid : ℕ) → PageHolds (page_to_offset d pid) (f pid)
  pub once :
      (pid : ℕ) (m : Memory) → page_to_offset d pid ≡ some m → occurrences pid d.free_space_map ≡ 1
  pub entries : Entries d d.free_space_map

pub occurrences-insert :
    (q k v : ℕ) (fm : Multimap ℕ)
    → occurrences q (insert k v fm) ≡ (if v == q then 1 else 0) + occurrences q fm
unfolding occurrences insert
occurrences-insert q k v [] = refl
occurrences-insert q k v ((i, w) ∷ fm) = ground (arith, occurrences-insert q k v fm)

pub Entries-insert :
    (d : DmsFile) (k v : ℕ) (m : Memory) (fm : Multimap ℕ)
    → page_to_offset d v ≡ some m
    → load32 m free_space_at ≡ k
    → Entries d fm
    → Entries d (insert k v fm)
unfolding insert
Entries-insert d k v m [] e l h = ((m, e, l), tt)
Entries-insert d k v m ((i, w) ∷ fm) e l h = elim (Bool-cases (ltb k i)) [
  | inl t ↦ rw t ((m, e, l), h)
  | inr t ↦ rw t (h.0, Entries-insert d k v m fm e l h.1)
]

pub Entries-same :
    (d d' : DmsFile) (fm : Multimap ℕ)
    → ((q : ℕ) → page_to_offset d' q ≡ page_to_offset d q)
    → Entries d fm
    → Entries d' fm
Entries-same d d' [] same h = tt
Entries-same d d' ((k, v) ∷ fm) same ((m, e, l), h) =
    ((m, same v ∙ e, l), Entries-same d d' fm same h)

-- A page that the map has not.
Entries-absent :
    (d d' : DmsFile) (pid : ℕ) (fm : Multimap ℕ)
    → ((q : ℕ) → pid ≢ q → page_to_offset d' q ≡ page_to_offset d q)
    → occurrences pid fm ≡ 0
    → Entries d fm
    → Entries d' fm
unfolding occurrences
Entries-absent d d' pid [] same z h = tt
Entries-absent d d' pid ((k, v) ∷ fm) same z ((m, e, l), h) =
    ((m, same v (ground arith) ∙ e, l), Entries-absent d d' pid fm same (ground arith) h)

module _ (d d' : DmsFile) (pid : ℕ) (m : Memory) (here : page_to_offset d pid ≡ some m)
    (same : (q : ℕ) → pid ≢ q → page_to_offset d' q ≡ page_to_offset d q) where
  abbrev pruned : Multimap ℕ → Multimap ℕ
  pruned = erase_in_range (load32 m free_space_at) (λ it. it == pid)

  -- The entry of the page is the one that updateFreeSpace erases.
  erase_entry :
      (fm : Multimap ℕ)
      → occurrences pid fm ≡ 1
      → Entries d fm
      → Entries d' (pruned fm)
        × ((q : ℕ) → occurrences q (pruned fm) + (if pid == q then 1 else 0) ≡ occurrences q fm)
  unfolding occurrences erase_in_range
  erase_entry [] once h = absurd (omega arith)
  erase_entry ((k, v) ∷ fm) once ((p, e, l), h) = elim (Bool-cases (v == pid)) [
    | inl hit ↦
        let at : v ≡ pid = ground arith in
        let page : p ≡ m = some_inj (sym e ∙ ap (page_to_offset d) at ∙ here) in
        let key : k ≡ load32 m free_space_at =
          sym l ∙ ap (λ (t : Memory). load32 t free_space_at) page in
        rw (key, at, ==_refl (load32 m free_space_at), ==_refl pid)
          (Entries-absent d d' pid fm same (ground arith) h, λ q. ground arith)
    | inr miss ↦
        let (es, os) = erase_entry fm (ground arith) h in
        let kept : (k == load32 m free_space_at) && (v == pid) ≡ false = ground arith in
        rw kept (((p, same v (ground arith) ∙ e, l), es), λ q. omega (arith, os q))
  ]

-- updateFreeSpace keeps the store, where the page's record count changed under it.
module _ (d : DmsFile) (f : Contents) (h : IsStore d f) (pid : ℕ) (m m' : Memory) (change : ℕ)
    (cs : Slots) (here : page_to_offset d pid ≡ some m)
    (kept : load32 m' free_space_at ≡ load32 m free_space_at)
    (models : Models (add_free_space m' change) cs) where
  abbrev page : Memory
  page = add_free_space m' change

  abbrev after : DmsFile
  after = update_free_space d m' change pid

  after-page : (q : ℕ) → page_to_offset after q ≡ page_to_offset (put_page d pid page) q
  unfolding update_free_space page_to_offset
  after-page q = refl

  pub at_self : page_to_offset after pid ≡ some page
  at_self = after-page pid ∙ put_page_self d h.whole pid page (page_in_range d pid m here)

  pub at_other : (q : ℕ) → pid ≢ q → page_to_offset after q ≡ page_to_offset d q
  at_other q ne = after-page q ∙ put_page-other d h.whole pid page (page_in_range d pid m here) q ne

  holds_after : (q : ℕ) → PageHolds (page_to_offset after q) (assign f pid cs q)
  holds_after q = elim (Bool-cases (pid == q)) [
    | inl e ↦ let at : pid ≡ q = ground arith in rw (e, ← at, at_self) models
    | inr e ↦ rw (e, at_other q (ground arith)) (h.holds q)
  ]

  once_before :
      (q : ℕ) (p : Memory) → page_to_offset after q ≡ some p → occurrences q d.free_space_map ≡ 1
  once_before q p e = elim (Bool-cases (pid == q)) [
    | inl t ↦ let at : pid ≡ q = ground arith in rw (← at) (h.once pid m here)
    | inr t ↦ h.once q p (sym (at_other q (ground arith)) ∙ e)
  ]

  abbrev left : Multimap ℕ
  left = pruned d after pid m here at_other d.free_space_map

  after_map : after.free_space_map ≡ insert (load32 page free_space_at) pid left
  unfolding update_free_space
  after_map = rw kept

  pub update-IsStore : IsStore (update_free_space d m' change pid) (assign f pid cs)
  update-IsStore =
      let (es, os) =
        erase_entry d after pid m here at_other d.free_space_map (h.once pid m here) h.entries in
      record {
        whole = unfold update_free_space in put_page-IsWhole d h.whole pid page;
        holds = holds_after;
        once = λ q p e.
            rw (after_map, occurrences-insert q (load32 page free_space_at) pid left)
              (omega (arith, os q, once_before q p e));
        entries =
            subst (Entries after) (sym after_map)
              (Entries-insert after (load32 page free_space_at) pid page left at_self refl es);
      }
