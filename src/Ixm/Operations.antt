-- ===== src/Ixm/Operations.antt =====
-- The four operations of ixmHashManager (ixm/ixm.cpp) against the view of the index.
use edbc.Base.{
  ℕ, ◌≡◌, inl, inr, true, none, some, [], length-replicate, get_or-replicate, if◌then◌else◌,
  Bool-cases, Option-cases, arith,
}
use edbc.Base.Outcome.{returns}
use edbc.Base.Outcome.Rc.{edb_ok}
use edbc.Base.Bytes.{Bytes, bytes_eq, bytes_eq_refl, bytes_eq→eq}
use edbc.Base.Json.{JsonLib}
use edbc.Base.Multimap.{find_in_range, count_in_range, insert, erase_in_range}
use edbc.Ixm.Bucket
use edbc.Ixm.Bucket.{Rid, HashElem, HashBucket}
use edbc.Ixm.Manager.{
  HashManager, hash_max_size, init, bucket_at, put_bucket, hash_record_internal, is_id_exist,
  create_index, find_index, remove_index,
}
use edbc.Ixm.Index.{
  hits, exist_code, found_code, rid_or, hash_of, home, bucket_of, entry, view, IsIndex, Writes,
  bucket_at-home, put-Writes, insert_reads, insert_once, erase_reads, erase_once,
}

module _ (hash_fn : Bytes → ℕ) where
  keep_reads :
      (m : HashManager) (id : Bytes)
      → entry hash_fn m id ≡ none
      → (q : Bytes) → home hash_fn id ≡ home hash_fn q
      → find_in_range (hash_of hash_fn q) (hits q) (bucket_of hash_fn m id)
        ≡ (if bytes_eq id q then none else entry hash_fn m q)
  keep_reads m id gone q same = elim (Bool-cases (bytes_eq id q)) [
    | inl h ↦ let p : id ≡ q = bytes_eq→eq id q h in rw (← p, bytes_eq_refl id) gone
    | inr h ↦ rw (h, same)
  ]

  -- The four operations on a record that has an id.
  module _ (lib : JsonLib) (m : HashManager) (valid : IsIndex hash_fn m) (r field : lib.Json)
      (e : lib.id_field r ≡ some field) where
    abbrev key_of : Bytes
    key_of = lib.dump field

    abbrev elem_of : Rid → HashElem
    elem_of rid = record { key = key_of; rid = rid }

    hashed :
        (rid : Rid)
        → hash_record_internal lib hash_fn r rid
          ≡ some (record {
            hash = hash_of hash_fn key_of;
            elem = elem_of rid;
            random = home hash_fn key_of;
          })
    unfolding hash_record_internal home
    hashed rid = rw (e, hash_record_internal)

    at_home : bucket_at m (home hash_fn key_of) ≡ returns (bucket_of hash_fn m key_of)
    at_home = bucket_at-home hash_fn m key_of valid

    -- isIdExist of a record with an id, on a well-formed index: EDB_INDEX_EXIST where the index as
    -- a map has the id, EDB_OK where it has not.
    pub is_id_exist-view :
        is_id_exist lib hash_fn m r ≡ returns (exist_code (view hash_fn m (lib.dump field)))
    unfolding is_id_exist Bucket.is_id_exist
    is_id_exist-view = rw (hashed _, is_id_exist, at_home) (ground arith)

    -- findIndex of a record with an id, on a well-formed index, whether the id is there or not:
    -- the code and the position are those of the index as a map, and the position is left as it
    -- was where the id is missing.
    pub find_index-view :
        (rid : Rid)
        → find_index lib hash_fn m r rid
          ≡ returns (
            found_code (view hash_fn m (lib.dump field)),
            rid_or rid (view hash_fn m (lib.dump field)),
          )
    unfolding find_index Bucket.find_index
    find_index-view rid = rw (hashed _, find_index, at_home) (ground arith)

    -- createIndex of a record with an id that a well-formed index has not: it returns EDB_OK, the
    -- index stays well-formed, and as a map from ids to positions it is the old one with the
    -- position at that id.
    pub create_index-Writes :
        (rid : Rid)
        → view hash_fn m (lib.dump field) ≡ none
        → (m' : HashManager) × (create_index lib hash_fn m r rid ≡ returns (edb_ok, m'))
          × Writes hash_fn m (lib.dump field) (some rid) m'
    unfolding create_index Bucket.create_index
    create_index-Writes rid absent = (
      _,
      rw (hashed rid, create_index, at_home),
      put-Writes hash_fn m valid key_of
          (insert (hash_of hash_fn key_of) (elem_of rid) (bucket_of hash_fn m key_of))
          (some (elem_of rid)) (insert_reads hash_fn m valid key_of rid absent)
          (insert_once hash_fn m valid key_of rid absent),
    )

    -- removeIndex of a record with an id, on a well-formed index, whether the id is there or not:
    -- the code and the position are those of the index as a map, which afterwards is the old one
    -- without that id and well-formed.
    pub remove_index-Writes :
        (rid : Rid)
        → (m' : HashManager) × (remove_index lib hash_fn m r rid
            ≡ returns (
              found_code (view hash_fn m (lib.dump field)),
              rid_or rid (view hash_fn m (lib.dump field)),
              m',
            ))
          × Writes hash_fn m (lib.dump field) none m'
    unfolding remove_index Bucket.remove_index
    remove_index-Writes rid = elim (Option-cases (entry hash_fn m key_of)) [
      | inl gone ↦ (
        put_bucket m (home hash_fn key_of) (bucket_of hash_fn m key_of),
        rw (hashed rid, remove_index, at_home) (ground arith),
        put-Writes hash_fn m valid key_of (bucket_of hash_fn m key_of) none
            (λ q same. keep_reads m key_of gone q same) (λ q same. rw same (valid.once q)),
      )
      | inr (it, found) ↦ (
        put_bucket m (home hash_fn key_of)
            (erase_in_range (hash_of hash_fn key_of) (hits key_of) (bucket_of hash_fn m key_of)),
        rw (hashed rid, remove_index, at_home) (ground arith),
        put-Writes hash_fn m valid key_of
            (erase_in_range (hash_of hash_fn key_of) (hits key_of) (bucket_of hash_fn m key_of))
            none (erase_reads hash_fn m valid key_of) (erase_once hash_fn m valid key_of),
      )
    ]

  -- A new index: it is well-formed, and has no id.
  module _ (m : HashManager) where
    new_bucket : (id : Bytes) → bucket_of hash_fn ((init true m).1) id ≡ []
    unfolding init
    new_bucket id = get_or-replicate hash_max_size (home hash_fn id) []

    -- An index whose buckets could be allocated is well-formed, and has no id.
    pub init-IsIndex :
        IsIndex hash_fn ((init true m).1)
        × ((id : Bytes) → view hash_fn ((init true m).1) id ≡ none)
    unfolding init find_in_range count_in_range
    init-IsIndex = (
      record {
        width = length-replicate {A = HashBucket} hash_max_size [];
        once = λ id. rw (new_bucket id) (omega arith);
      },
      λ id. rw (new_bucket id),
    )
