-- ===== src/Rtn/Update.antt =====
-- rtn::insert on the map from ids to records (rtn/rtn.cpp).
use edbc.Base.{
  ℕ, suc, ◌+◌, ◌≤◌, ◌≡◌, refl, sym, ap, ◌∙◌, inl, inr, true, false, Option, none, some, [], ◌∷◌,
  ◌++◌, length, if◌then◌else◌, Bool-cases, Option-cases,
}
use edbc.Base.Outcome.{returns}
use edbc.Base.Outcome.Rc.{edb_ok}
use edbc.Base.Latch.{unlocked}
use edbc.Base.Bytes.{Bytes, bytes_eq, bytes_eq→eq}
use edbc.Base.Memory.{Memory}
use edbc.Base.Multimap.{upper_bound}
use edbc.Base.Json.{JsonLib}
use edbc.Ixm.Bucket.{Rid}
use edbc.Ixm.Manager.{HashManager}
use edbc.Ixm.Index.{view, Writes}
use edbc.Ixm.Operations.{is_id_exist-view, create_index-Writes}
use edbc.Dms.Page.{gap}
use edbc.Dms.Layout.{Slots}
use edbc.Dms.File.{DmsFile, Os, page_to_offset}
use edbc.Dms.Store.{Contents, assign, IsStore}
use edbc.Dms.Operations.{insert-adds}
use edbc.Rtn.Methods.{Rtn, rtn_insert}
use edbc.Rtn.Cells.{cell, cell-added, cell-kept, cell-new}
use edbc.Rtn.Database.{cell_of, db_at, IsDb}

module _ (lib : JsonLib) (hash_fn : Bytes → ℕ) where
  open lib use {Json, dump, parse, id_field}

  module _ (s : Rtn) (f : Contents) (h : IsDb lib hash_fn s f) (r field : Json)
      (has_id : id_field r ≡ some field) where
    abbrev id : Bytes
    id = dump field

    -- A written index, by cases on the id.
    pub wrote_here :
        (m : HashManager) (v : Option Rid)
        → Writes hash_fn s.index id v m
        → (q : Bytes) → bytes_eq id q ≡ true
        → view hash_fn m q ≡ v
    wrote_here m v w q t = w.reads q ∙ rw t

    pub wrote_other :
        (m : HashManager) (v : Option Rid)
        → Writes hash_fn s.index id v m
        → (q : Bytes) → bytes_eq id q ≡ false
        → view hash_fn m q ≡ view hash_fn s.index q
    wrote_other m v w q t = w.reads q ∙ rw t

    module _ (pid fs : ℕ) (m : Memory) (cs : Slots)
        (found : upper_bound (length (dump r) + 12) s.file.free_space_map ≡ some (fs, pid))
        (page : f pid ≡ some cs) (here : page_to_offset s.file pid ≡ some m)
        (fits : length (dump r) + 16 ≤ gap m)
        (absent : view hash_fn s.index (dump field) ≡ none) where
      abbrev at : Rid
      at = record { pid = pid; sid = length cs }

      abbrev after : Contents
      after = assign f pid (cs ++ some (dump r) ∷ [])

      -- The new position was nobody's.
      not_before : (q : Bytes) → ¬ view hash_fn s.index q ≡ some at
      not_before q e =
          let (j, old) = h.linked q at e in cell-new f pid cs page (dump r) at (dump j) old refl

      reads_after :
          (index : HashManager) (q : Bytes)
          → Writes hash_fn s.index id (some at) index
          → cell_of after (view hash_fn index q)
            ≡ (if bytes_eq id q then some (dump r) else cell_of f (view hash_fn s.index q))
      reads_after index q w = elim (Bool-cases (bytes_eq id q)) [
        | inl t ↦ rw t (
            ap (cell_of after) (wrote_here index (some at) w q t)
            ∙ cell-added f pid cs page (dump r))
        | inr t ↦ rw t (
            ap (cell_of after) (wrote_other index (some at) w q t)
            ∙ elim (Option-cases (view hash_fn s.index q)) [
              | inl n ↦ rw n
              | inr (rid, e) ↦
                  let (j, old) = h.linked q rid e in
                  ap (cell_of after) e
                  ∙ cell-kept f pid cs page (dump r) rid (dump j) old
                  ∙ sym (ap (cell_of f) e ∙ old)
            ])
      ]

      added_IsDb :
          (index : HashManager) (file : DmsFile)
          → Writes hash_fn s.index id (some at) index
          → IsStore file after
          → file.rw_mutex ≡ unlocked
          → IsDb lib hash_fn (record { index = index; file = file }) after
      added_IsDb index file w store free = record {
        index_ok = w.valid;
        store_ok = store;
        free = free;
        linked = λ q rid e. elim (Bool-cases (bytes_eq id q)) [
          | inl t ↦
              let same : some at ≡ some rid = sym (wrote_here index (some at) w q t) ∙ e in
              let eq : at ≡ rid = cc in
              (r, ap (cell after) (sym eq) ∙ cell-added f pid cs page (dump r))
          | inr t ↦
              let (j, old) = h.linked q rid (sym (wrote_other index (some at) w q t) ∙ e) in
              (j, cell-kept f pid cs page (dump r) rid (dump j) old)
        ];
        distinct = λ p q rid e e'. elim (Bool-cases (bytes_eq id p)) [
          | inl t ↦ elim (Bool-cases (bytes_eq id q)) [
            | inl u ↦ sym (bytes_eq→eq id p t) ∙ bytes_eq→eq id q u
            | inr u ↦
                let there : some at ≡ some rid = sym (wrote_here index (some at) w p t) ∙ e in
                let eq : rid ≡ at = cc in
                absurd (not_before q (sym (wrote_other index (some at) w q u) ∙ e' ∙ ap some eq))
          ]
          | inr t ↦ elim (Bool-cases (bytes_eq id q)) [
            | inl u ↦
                let there : some at ≡ some rid = sym (wrote_here index (some at) w q u) ∙ e' in
                let eq : rid ≡ at = cc in
                absurd (not_before p (sym (wrote_other index (some at) w p t) ∙ e ∙ ap some eq))
            | inr u ↦
                h.distinct p q rid (sym (wrote_other index (some at) w p t) ∙ e)
                  (sym (wrote_other index (some at) w q u) ∙ e')
          ]
        ];
      }

      -- rtn::insert of a record with a new id, where the free space map gives a page whose gap
      -- takes record, header, slot and NUL: it returns EDB_OK, the database stays well-formed, and
      -- as a map from ids to texts it is the old one with the record's text at its id.
      pub rtn_insert-adds :
          (os : Os) (fuel : ℕ) (old : Json) (rid : Rid)
          → (s' : Rtn) × (rtn_insert lib hash_fn os (suc fuel) s r old rid ≡ returns (edb_ok, s'))
            × IsDb lib hash_fn s' after
            × ((q : Bytes)
                → db_at lib hash_fn s' after q
                  ≡ (if bytes_eq (dump field) q then some (dump r) else db_at lib hash_fn s f q))
      unfolding rtn_insert
      rtn_insert-adds os fuel old rid =
          let (file, run, store, free) =
            insert-adds lib s.file f h.store_ok r field pid fs m cs has_id found page here fits os
              fuel rid h.free old in
          let (index, write, w) =
            create_index-Writes hash_fn lib s.index h.index_ok r field has_id at absent in
          (
            record { index = index; file = file },
            rw (rtn_insert, is_id_exist-view hash_fn lib s.index h.index_ok r field has_id, absent)
                (rw run (rw write)),
            added_IsDb index file w store free,
            λ q. reads_after index q w,
          )
