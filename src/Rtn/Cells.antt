-- ===== src/Rtn/Cells.antt =====
-- What a position (a RID) holds in the contents of a data file (include/dmsRID.hpp).
use edbc.Base.{
  ℕ, zero, suc, ◌≡◌, ◌≢◌, refl, sym, ap, ◌∙◌, inl, inr, Option, none, some, [], ◌∷◌, ◌++◌, length,
  get_elem?, set, get_elem?-set_ne, ◌==◌, Bool-cases, Option-cases, arith,
}
use edbc.Base.Bytes.{Bytes}
use edbc.Ixm.Bucket.{Rid}
use edbc.Dms.Layout.{Slots}
use edbc.Dms.Store.{Contents, assign}

abbrev pub slot_bytes : Option (Option Bytes) → Option Bytes
slot_bytes none = none
slot_bytes (some c) = c

abbrev pub page_bytes : Option Slots → ℕ → Option Bytes
page_bytes none sid = none
page_bytes (some cs) sid = slot_bytes (get_elem? cs sid)

abbrev pub cell : Contents → Rid → Option Bytes
cell f rid = page_bytes (f rid.pid) rid.sid

page_inv :
    (o : Option Slots) (sid : ℕ) (bs : Bytes)
    → page_bytes o sid ≡ some bs
    → (cs : Slots) × (o ≡ some cs) × (get_elem? cs sid ≡ some (some bs))
page_inv none sid bs e = cc
page_inv (some cs) sid bs e = elim (Option-cases (get_elem? cs sid)) [
  | inl n ↦ let no : none ≡ some bs = sym (ap slot_bytes n) ∙ e in cc
  | inr (c, t) ↦ (cs, refl, t ∙ ap some (sym (ap slot_bytes t) ∙ e))
]

pub cell-inv :
    (f : Contents) (rid : Rid) (bs : Bytes)
    → cell f rid ≡ some bs
    → (cs : Slots) × (f rid.pid ≡ some cs) × (get_elem? cs rid.sid ≡ some (some bs))
cell-inv f rid bs e = page_inv (f rid.pid) rid.sid bs e

get_elem?-end : (cs : Slots) → get_elem? cs (length cs) ≡ none
get_elem?-end [] = refl
get_elem?-end (x ∷ cs) = get_elem?-end cs

pub rid_eq : (a b : Rid) → a.pid ≡ b.pid → a.sid ≡ b.sid → a ≡ b
rid_eq a b p q =
    ap (λ x. record { pid = x; sid = a.sid }) p ∙ ap (λ x. record { pid = b.pid; sid = x }) q

get_elem?-last : (cs : Slots) (c : Option Bytes) → get_elem? (cs ++ c ∷ []) (length cs) ≡ some c
get_elem?-last [] c = refl
get_elem?-last (x ∷ cs) c = get_elem?-last cs c

get_elem?-before :
    (cs : Slots) (c : Option Bytes) (i : ℕ) (b : Option Bytes)
    → get_elem? cs i ≡ some b
    → get_elem? (cs ++ c ∷ []) i ≡ some b
get_elem?-before [] c i b e = cc
get_elem?-before (x ∷ cs) c zero b e = e
get_elem?-before (x ∷ cs) c (suc i) b e = get_elem?-before cs c i b e

-- A record behind the others of its page.
module _ (f : Contents) (pid : ℕ) (cs : Slots) (page : f pid ≡ some cs) (bs : Bytes) where
  pub cell-added :
      cell (assign f pid (cs ++ some bs ∷ [])) (record { pid = pid; sid = length cs }) ≡ some bs
  cell-added = elim (Bool-cases (pid == pid)) [
    | inl t ↦ rw (t, get_elem?-last cs (some bs))
    | inr t ↦ absurd (ground arith)
  ]

  pub cell-kept :
      (rid : Rid) (b : Bytes)
      → cell f rid ≡ some b
      → cell (assign f pid (cs ++ some bs ∷ [])) rid ≡ some b
  cell-kept rid b e = elim (Bool-cases (pid == rid.pid)) [
    | inr t ↦ rw t e
    | inl t ↦
        let (cs', here, at) = cell-inv f rid b e in
        let same : pid ≡ rid.pid = ground arith in
        let one : some cs' ≡ some cs = sym here ∙ ap f (sym same) ∙ page in
        let eq : cs' ≡ cs = cc in
        rw (
          t,
          get_elem?-before cs (some bs) rid.sid (some b)
              (ap (λ l. get_elem? l rid.sid) (sym eq) ∙ at),
        )
  ]

  -- No record was at the new position.
  pub cell-new :
      (rid : Rid) (b : Bytes) → cell f rid ≡ some b → rid ≢ record { pid = pid; sid = length cs }
  cell-new rid b e at =
      let (cs', here, found) = cell-inv f rid b e in
      let one : some cs' ≡ some cs = sym here ∙ ap f (ap (λ (r : Rid). r.pid) at) ∙ page in
      let eq : cs' ≡ cs = cc in
      let last : get_elem? cs (length cs) ≡ some (some b) =
        ap (get_elem? cs) (sym (ap (λ (r : Rid). r.sid) at))
        ∙ ap (λ l. get_elem? l rid.sid) (sym eq)
        ∙ found in
      let no : none ≡ some (some b) = sym (get_elem?-end cs) ∙ last in cc

-- A record removed.
module _ (f : Contents) (rid : Rid) (cs : Slots) (page : f rid.pid ≡ some cs) where
  pub cell-others : (q : Rid) → rid ≢ q → cell (assign f rid.pid (set cs rid.sid none)) q ≡ cell f q
  cell-others q ne = elim (Bool-cases (rid.pid == q.pid)) [
    | inr t ↦ rw t
    | inl t ↦
        let same : rid.pid ≡ q.pid = ground arith in
        let apart : rid.sid ≢ q.sid = λ e. ne (rid_eq rid q same e) in
        rw (t, get_elem?-set_ne cs {i = rid.sid} {j = q.sid} none apart, ← same, page)
  ]
