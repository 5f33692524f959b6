-- ===== src/Rtn/Methods.antt =====
-- rtn::insert, find and remove (rtn/rtn.cpp, include/rtn.hpp). The RID of each is not
-- initialized: it is an argument here.
use edbc.Base.{ℕ, if◌then◌else◌}
use edbc.Base.Outcome.{Outcome, returns, ◌>>=◌, Rc, is_ok}
use edbc.Base.Bytes.{Bytes}
use edbc.Base.Json.{JsonLib}
use edbc.Ixm.Bucket.{Rid}
use edbc.Ixm.Manager.{HashManager, is_id_exist, create_index, find_index, remove_index}
use edbc.Dms.File.{DmsFile, Os, insert_record, find, remove}

-- indexManager_ and dmsFile_.
pub record Rtn : Type 0 where
  pub index : HashManager
  pub file : DmsFile

module _ (lib : JsonLib) (hash_fn : Bytes → ℕ) where
  open lib use {Json}

  unfoldable pub rtn_insert : Os → ℕ → Rtn → Json → Json → Rid → Outcome (Rc × Rtn)
  rtn_insert os fuel s r out_record rid = do
    rc ← is_id_exist lib hash_fn s.index r
    if is_ok rc
        then (do
          (((rc', rid'), file), out) ← insert_record lib os fuel s.file r out_record rid
          if is_ok rc'
              then (do
                (rc'', index) ← create_index lib hash_fn s.index r rid'
                returns (rc'', record { index = index; file = file }))
              else returns (rc', record s { file = file }))
        else returns (rc, s)

  unfoldable pub rtn_find : Rtn → Json → Json → Rid → Outcome (Rc × Json × Rtn)
  rtn_find s r out_record rid = do
    (rc, rid') ← find_index lib hash_fn s.index r rid
    if is_ok rc
        then (do
          (rc', row, file) ← find lib s.file rid' out_record
          returns (rc', row, record s { file = file }))
        else returns (rc, out_record, s)

  unfoldable pub rtn_remove : Rtn → Json → Rid → Outcome (Rc × Rtn)
  rtn_remove s r rid = do
    (rc, rid', index) ← remove_index lib hash_fn s.index r rid
    if is_ok rc
        then (do
          (rc', file) ← remove lib s.file rid'
          returns (rc', record { index = index; file = file }))
        else returns (rc, record s { index = index })
