-- ===== src/Rtn/Remove.antt =====
-- rtn::remove on the map from ids to records (rtn/rtn.cpp).
use edbc.Base.{
  ℕ, ◌≡◌, ◌≢◌, sym, ap, ◌∙◌, inl, inr, true, false, none, some, set, if◌then◌else◌, Bool-cases,
  Option-cases,
}
use edbc.Base.Outcome.{returns}
use edbc.Base.Outcome.Rc.{edb_ok}
use edbc.Base.Latch.{unlocked}
use edbc.Base.Bytes.{Bytes, bytes_eq, bytes_eq_refl}
use edbc.Base.Json.{JsonLib}
use edbc.Ixm.Bucket.{Rid}
use edbc.Ixm.Manager.{HashManager}
use edbc.Ixm.Index.{view, Writes}
use edbc.Ixm.Operations.{remove_index-Writes}
use edbc.Dms.Layout.{Slots}
use edbc.Dms.File.{DmsFile}
use edbc.Dms.Store.{Contents, assign, IsStore}
use edbc.Dms.Operations.{remove-empties}
use edbc.Rtn.Methods.{Rtn, rtn_remove}
use edbc.Rtn.Cells.{cell-inv, cell-others}
use edbc.Rtn.Database.{cell_of, db_at, IsDb}
use edbc.Rtn.Update.{wrote_here, wrote_other}

module _ (lib : JsonLib) (hash_fn : Bytes → ℕ) where
  open lib use {Json, dump, parse, id_field}

  module _ (s : Rtn) (f : Contents) (h : IsDb lib hash_fn s f) (r field : Json)
      (has_id : id_field r ≡ some field) where
    abbrev id : Bytes
    id = dump field

    -- remove takes the id out of the map.
    module _ (p : Rid) (found : view hash_fn s.index (dump field) ≡ some p) where
      abbrev left : Slots → Contents
      left cs = assign f p.pid (set cs p.sid none)

      -- Another id is at another position.
      elsewhere :
          (q : Bytes) (rid : Rid)
          → bytes_eq id q ≡ false
          → view hash_fn s.index q ≡ some rid
          → p ≢ rid
      elsewhere q rid t e eq =
          let same : id ≡ q = h.distinct id q rid (found ∙ ap some eq) e in
          let yes : bytes_eq id q ≡ true = ap (bytes_eq id) (sym same) ∙ bytes_eq_refl id in
          let no : true ≡ false = sym yes ∙ t in cc

      module _ (cs : Slots) (page : f p.pid ≡ some cs) (index : HashManager)
          (w : Writes hash_fn s.index id none index) where
        old_view :
            (q : Bytes) (rid : Rid)
            → view hash_fn index q ≡ some rid
            → (bytes_eq id q ≡ false) × (view hash_fn s.index q ≡ some rid)
        old_view q rid e = elim (Bool-cases (bytes_eq id q)) [
          | inl t ↦
              let no : none ≡ some rid =
                sym (wrote_here lib hash_fn s f h r field has_id index none w q t) ∙ e in
              cc
          | inr t ↦ (t, sym (wrote_other lib hash_fn s f h r field has_id index none w q t) ∙ e)
        ]

        removed_IsDb :
            (file : DmsFile)
            → IsStore file (left cs)
            → file.rw_mutex ≡ unlocked
            → IsDb lib hash_fn (record { index = index; file = file }) (left cs)
        removed_IsDb file store free = record {
          index_ok = w.valid;
          store_ok = store;
          free = free;
          linked = λ q rid e.
              let (t, e') = old_view q rid e in
              let (j, old) = h.linked q rid e' in
              (j, cell-others f p cs page rid (elsewhere q rid t e') ∙ old);
          distinct =
              λ q q' rid e e'. h.distinct q q' rid ((old_view q rid e).1) ((old_view q' rid e').1);
        }

        reads_left :
            (q : Bytes)
            → cell_of (left cs) (view hash_fn index q)
              ≡ (if bytes_eq id q then none else cell_of f (view hash_fn s.index q))
        reads_left q = elim (Bool-cases (bytes_eq id q)) [
          | inl t ↦ rw t (
              ap (cell_of (left cs)) (wrote_here lib hash_fn s f h r field has_id index none w q t))
          | inr t ↦ rw t (
              ap (cell_of (left cs)) (wrote_other lib hash_fn s f h r field has_id index none w q t)
              ∙ elim (Option-cases (view hash_fn s.index q)) [
                | inl n ↦ rw n
                | inr (rid, e) ↦
                    ap (cell_of (left cs)) e
                    ∙ cell-others f p cs page rid (elsewhere q rid t e)
                    ∙ sym (ap (cell_of f) e)
              ])
        ]

      -- rtn::remove of an id that the index of a well-formed database has: it returns EDB_OK, the
      -- database stays well-formed, and as a map from ids to texts it is the old one without that
      -- id.
      pub rtn_remove-removes :
          (rid : Rid)
          → (s' : Rtn) × (f' : Contents) × (rtn_remove lib hash_fn s r rid ≡ returns (edb_ok, s'))
            × IsDb lib hash_fn s' f'
            × ((q : Bytes)
                → db_at lib hash_fn s' f' q
                  ≡ (if bytes_eq (dump field) q then none else db_at lib hash_fn s f q))
      unfolding rtn_remove
      rtn_remove-removes rid =
          let (j, here) = h.linked id p found in
          let (cs, page, slot) = cell-inv f p (dump j) here in
          let (file, run, store, free) =
            remove-empties lib s.file f h.store_ok p cs (dump j) page slot h.free in
          let (index, write, w) =
            remove_index-Writes hash_fn lib s.index h.index_ok r field has_id rid in
          (
            record { index = index; file = file },
            left cs,
            rw write (rw found (rw run)),
            removed_IsDb cs page index w file store free,
            reads_left cs page index w,
          )
