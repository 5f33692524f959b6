-- ===== src/Rtn/Indexed.antt =====
-- The index that dmsFile::loadData (dms/dms.cpp) builds from a page: the positions read so far are
-- those of the index.
use edbc.Base.{
  ℕ, ◌+◌, ◌-◌, ◌≤◌, ◌<◌, ◌≡◌, ◌⊎◌, refl, sym, ap, ◌∙◌, inl, inr, none, some, true, false, length,
  ◌==◌, Bool-cases, Option-cases, arith,
}
use mathlib.Core.Path.{subst}
use edbc.Base.Outcome.{returns}
use edbc.Base.Outcome.Rc.{edb_ok}
use edbc.Base.Bytes.{Bytes, bytes_eq, bytes_eq_refl, bytes_eq→eq}
use edbc.Base.Memory.{Memory, c_string-text}
use edbc.Base.Json.{JsonLib}
use edbc.Ixm.Bucket.{Rid}
use edbc.Ixm.Manager.{HashManager}
use edbc.Ixm.Index.{view, IsIndex, Writes}
use edbc.Ixm.Operations.{is_id_exist-view, create_index-Writes}
use edbc.Dms.Page.{dms_pagesize}
use edbc.Dms.Layout.{RecordAt}
use edbc.Dms.Store.{Contents}
use edbc.Dms.Load.{load_record}
use edbc.Rtn.Cells.{cell, rid_eq}

-- The positions before slot `s` of page `j`.
abbrev pub Before : ℕ → ℕ → Rid → Type 0
Before j s rid = (rid.pid < j) ⊎ ((rid.pid ≡ j) × (rid.sid < s))

module _ (lib : JsonLib) (hash_fn : Bytes → ℕ) where
  open lib use {Json, dump, parse, id_field}

  -- The text is that of a record with this id.
  abbrev pub HasId : Bytes → Bytes → Type 0
  HasId bs id =
      (r : Json) × (field : Json) × (parse bs ≡ some r)
      × (id_field r ≡ some field)
      × (dump field ≡ id)

  abbrev pub KeyAt : Contents → Rid → Bytes → Type 0
  KeyAt f rid id = (bs : Bytes) × (cell f rid ≡ some bs) × HasId bs id

  -- Every text is the dump of a record with an id, and no two have the same id.
  pub record Named (f : Contents) : Type 0 where
    pub has_id :
        (rid : Rid) (bs : Bytes)
        → cell f rid ≡ some bs
        → (r : Json) × (field : Json) × (bs ≡ dump r) × (id_field r ≡ some field)
    pub unique : (p q : Rid) (id : Bytes) → KeyAt f p id → KeyAt f q id → p ≡ q

  -- The index has the ids of the positions that are done, each at its position, and no others.
  pub record Indexed (f : Contents) (Done : Rid → Type 0) (index : HashManager) : Type 0 where
    pub valid : IsIndex hash_fn index
    pub sound :
        (id : Bytes) (rid : Rid) → view hash_fn index id ≡ some rid → Done rid × KeyAt f rid id
    pub complete :
        (id : Bytes) (rid : Rid) → Done rid → KeyAt f rid id → view hash_fn index id ≡ some rid

  -- Positions without a record do not matter.
  pub Indexed-same :
      (f : Contents) (P Q : Rid → Type 0) (index : HashManager)
      → ((rid : Rid) → P rid → Q rid)
      → ((rid : Rid) (bs : Bytes) → cell f rid ≡ some bs → Q rid → P rid)
      → Indexed f P index
      → Indexed f Q index
  Indexed-same f P Q index to from h = record {
    valid = h.valid;
    sound = λ id rid e. (to rid (h.sound id rid e).0, (h.sound id rid e).1);
    complete = λ id rid d k. h.complete id rid (from rid k.0 k.1 d) k;
  }

  pub HasId-eq : (bs p q : Bytes) → HasId bs p → HasId bs q → p ≡ q
  HasId-eq bs p q (r, a, e, i, d) (r', a', e', i', d') =
      let same : r ≡ r' = cc in
      let also : id_field r' ≡ some a = ap id_field (sym same) ∙ i in
      let field : a ≡ a' = cc in sym d ∙ ap dump field ∙ d'

  -- One record more: it is read whole, its id is new, and it is in the index afterwards.
  module _ (f : Contents) (named : Named f) (j s : ℕ) (index : HashManager)
      (h : Indexed f (Before j s) index) (bs : Bytes)
      (here : cell f (record { pid = j; sid = s }) ≡ some bs) where
    abbrev rid : Rid
    rid = record { pid = j; sid = s }

    new_id : (id : Bytes) → HasId bs id → view hash_fn index id ≡ none
    new_id id k = elim (Option-cases (view hash_fn index id)) [
      | inl n ↦ n
      | inr (p, e) ↦
          let (before, key) = h.sound id p e in
          let same : p ≡ rid = named.unique p rid id key (bs, here, k) in
          let pid : p.pid ≡ j = ap (λ (t : Rid). t.pid) same in
          let sid : p.sid ≡ s = ap (λ (t : Rid). t.sid) same in absurd (omega arith)
    ]

    module _ (id : Bytes) (k : HasId bs id) (index' : HashManager)
        (w : Writes hash_fn index id (some rid) index') where
      sound_after :
          (q : Bytes) (p : Rid) → view hash_fn index' q ≡ some p → Before j (s + 1) p × KeyAt f p q
      sound_after q p e = elim (Bool-cases (bytes_eq id q)) [
        | inl t ↦
            let hit : view hash_fn index' q ≡ some rid = rw (w.reads q, t) in
            let at : rid ≡ p = cc in
            let key : KeyAt f rid q = (bs, here, subst (HasId bs) (bytes_eq→eq id q t) k) in
            subst (λ (x : Rid). Before j (s + 1) x × KeyAt f x q) at (inr (refl, omega arith), key)
        | inr t ↦
            let miss : view hash_fn index q ≡ some p = (rw (w.reads q, t) at e) in
            let (before, key) = h.sound q p miss in (omega arith, key)
      ]

      earlier :
          (q : Bytes) (p : Rid)
          → bytes_eq id q ≡ false
          → Before j (s + 1) p
          → KeyAt f p q
          → Before j s p
      earlier q p t (inl lt) key = inl lt
      earlier q p t (inr (e, lt)) (bs', at, k') = elim (Bool-cases (p.sid == s)) [
        | inr u ↦ inr (e, ground arith)
        | inl u ↦
            let same : p ≡ rid = rid_eq p rid e (ground arith) in
            let text : some bs' ≡ some bs = sym at ∙ ap (cell f) same ∙ here in
            let one : bs' ≡ bs = cc in
            let ids : id ≡ q = HasId-eq bs id q k (subst (λ x. HasId x q) one k') in
            let hit : bytes_eq id q ≡ true = ap (bytes_eq id) (sym ids) ∙ bytes_eq_refl id in cc
      ]

      complete_after :
          (q : Bytes) (p : Rid) → Before j (s + 1) p → KeyAt f p q → view hash_fn index' q ≡ some p
      complete_after q p d key = elim (Bool-cases (bytes_eq id q)) [
        | inl t ↦
            let own : KeyAt f rid q = (bs, here, subst (HasId bs) (bytes_eq→eq id q t) k) in
            rw (w.reads q, t) (ap some (named.unique rid p q own key))
        | inr t ↦ rw (w.reads q, t) (h.complete q p (earlier q p t d key) key)
      ]

      pub record_Indexed : Indexed f (Before j (s + 1)) index'
      record_Indexed = record { valid = w.valid; sound = sound_after; complete = complete_after }

    -- The record's text is read back whole, its id is not in the index, and goes there.
    pub load_record-Indexed :
        (m : Memory) (off : ℕ)
        → off + 12 + length bs ≤ dms_pagesize
        → RecordAt m off bs
        → (index' : HashManager) × (load_record lib hash_fn m off rid index
            ≡ returns (edb_ok, index'))
          × Indexed f (Before j (s + 1)) index'
    unfolding load_record
    load_record-Indexed m off le r =
        let (v, field, dumped, has) = named.has_id rid bs here in
        let parsed : parse bs ≡ some v = ap parse dumped ∙ lib.parse-dump v in
        let k : HasId bs (dump field) = (v, field, parsed, has, refl) in
        let absent = new_id (dump field) k in
        let (index', made, w) =
          create_index-Writes hash_fn lib index h.valid v field has rid absent in
        (
          index',
          rw (
            c_string-text (dms_pagesize - (off + 8)) m (off + 8) bs r.text r.body r.stop
                (omega arith),
            load_record,
            parsed,
            load_record,
            is_id_exist-view hash_fn lib index h.valid v field has,
            absent,
            made,
          ),
          record_Indexed (dump field) k index' w,
        )
