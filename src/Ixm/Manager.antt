-- ===== src/Ixm/Manager.antt =====
-- ixmHashManager of include/ixm.hpp and ixm/ixm.cpp. `hash_fn` is std::hash<std::string>, whose
-- values the C++ library leaves open; its result is cut to an unsigned int.
use edbc.Base.{
  ℕ, ◌%◌, ◌^◌, Bool, true, false, Option, none, some, List, [], get_elem?, set, replicate,
  if◌then◌else◌,
}
use edbc.Base.Outcome.{Outcome, returns, fault, ◌>>=◌, Rc, is_ok}
use edbc.Base.Outcome.Rc.{edb_ok, edb_invalid_record, edb_oom}
use edbc.Base.Bytes.{Bytes}
use edbc.Base.Json.{JsonLib}
use edbc.Ixm.Bucket
use edbc.Ixm.Bucket.{Rid, HashElem, HashBucket}

abbrev pub hash_max_size : ℕ
hash_max_size = 1024

pub record HashManager : Type 0 where
  pub buckets : List HashBucket

-- ixmHashManager::init; `allocated` says whether the buckets can be allocated. (After a failure
-- the buckets that are missing are null; the model keeps none of them.)
unfoldable pub init : Bool → HashManager → Rc × HashManager
init true m = (edb_ok, record { buckets = replicate hash_max_size [] })
init false m = (edb_oom, record { buckets = [] })

-- What hashRecordInternal writes to its three output arguments.
pub record Hashed : Type 0 where
  pub hash : ℕ
  pub elem : HashElem
  pub random : ℕ

-- `*buckets_[idx]`; out of range is undefined.
unfoldable pub bucket_at : HashManager → ℕ → Outcome HashBucket
bucket_at m idx = elim (get_elem? m.buckets idx) [ none ↦ fault | some b ↦ returns b ]

unfoldable pub put_bucket : HashManager → ℕ → HashBucket → HashManager
put_bucket m idx b = record { buckets = set m.buckets idx b }

module _ (lib : JsonLib) (hash_fn : Bytes → ℕ) where
  open lib use {Json, dump, id_field}

  -- `none` is EDB_INVALID_RECORD.
  unfoldable pub hash_record_internal : Json → Rid → Option Hashed
  hash_record_internal r rid = elim (id_field r) [
    | none ↦ none
    | some field ↦
        let id = dump field in
        let hash = hash_fn id % 2 ^ 32 in
        some (record {
          hash = hash;
          elem = record { key = id; rid = rid };
          random = hash % hash_max_size;
        })
  ]

  unfoldable pub is_id_exist : HashManager → Json → Outcome Rc
  is_id_exist m r = elim (hash_record_internal r (record { pid = 0; sid = 0 })) [
    | none ↦ returns edb_invalid_record
    | some h ↦ do b ← bucket_at m h.random; returns (Bucket.is_id_exist b h.hash h.elem)
  ]

  unfoldable pub create_index : HashManager → Json → Rid → Outcome (Rc × HashManager)
  create_index m r rid = elim (hash_record_internal r rid) [
    | none ↦ returns (edb_invalid_record, m)
    | some h ↦ do
      b ← bucket_at m h.random
      let (rc, b') = Bucket.create_index b h.hash h.elem
      returns (rc, put_bucket m h.random b')
  ]

  -- `rid` is written on success only.
  unfoldable pub find_index : HashManager → Json → Rid → Outcome (Rc × Rid)
  find_index m r rid = elim (hash_record_internal r rid) [
    | none ↦ returns (edb_invalid_record, rid)
    | some h ↦ do
      b ← bucket_at m h.random
      let (rc, elem) = Bucket.find_index b h.hash h.elem
      returns (rc, if is_ok rc then elem.rid else rid)
  ]

  unfoldable pub remove_index : HashManager → Json → Rid → Outcome (Rc × Rid × HashManager)
  remove_index m r rid = elim (hash_record_internal r rid) [
    | none ↦ returns (edb_invalid_record, rid, m)
    | some h ↦ do
      b ← bucket_at m h.random
      let (rc, elem, b') = Bucket.remove_index b h.hash h.elem
      returns (rc, if is_ok rc then elem.rid else rid, put_bucket m h.random b')
  ]
