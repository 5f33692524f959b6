-- ===== src/Ixm/Index.antt =====
-- The index manager of ixm/ixm.cpp refines a partial function from ids to record positions.
use edbc.Base.{
  ℕ, ◌%◌, ◌^◌, ◌≤◌, ◌<◌, ◌≡◌, ap, ◌∙◌, inl, inr, Bool, true, false, Option, none, some, [], length,
  get_or, get_elem?-get_or, get_or-set_self, get_or-set_ne, length-set, ◌==◌, if◌then◌else◌,
  Bool-cases, arith,
}
use edbc.Base.Outcome.{returns, Rc}
use edbc.Base.Outcome.Rc.{edb_ok, edb_index_exist, edb_record_id_not_exist}
use edbc.Base.Bytes.{Bytes, bytes_eq, bytes_eq_refl, bytes_eq→eq}
use edbc.Base.Multimap.{
  find_in_range, count_in_range, insert, erase_in_range, find-insert, count-insert, count-find_none,
  find-erase_self, find-erase_other, count-erase-le,
}
use edbc.Ixm.Bucket.{Rid, HashElem, HashBucket}
use edbc.Ixm.Manager.{HashManager, hash_max_size, bucket_at, put_bucket}

abbrev pub hits : Bytes → HashElem → Bool
hits id it = bytes_eq it.key id

-- The codes that the four operations give, from what the map holds at the id.
abbrev pub exist_code : Option Rid → Rc
exist_code none = edb_ok
exist_code (some rid) = edb_index_exist

abbrev pub found_code : Option Rid → Rc
found_code none = edb_record_id_not_exist
found_code (some rid) = edb_ok

abbrev pub rid_of : Option HashElem → Option Rid
rid_of none = none
rid_of (some it) = some it.rid

abbrev pub rid_or : Rid → Option Rid → Rid
rid_or d none = d
rid_or d (some rid) = rid

module _ (hash_fn : Bytes → ℕ) where
  abbrev pub hash_of : Bytes → ℕ
  hash_of id = hash_fn id % 2 ^ 32

  unfoldable pub home : Bytes → ℕ
  home id = hash_of id % hash_max_size

  pub home-lt : (id : Bytes) → home id < hash_max_size
  unfolding home
  home-lt id = omega arith

  home_congr : (id q : Bytes) → bytes_eq id q ≡ true → home id ≡ home q
  home_congr id q h = ap home (bytes_eq→eq id q h)

  abbrev pub bucket_of : HashManager → Bytes → HashBucket
  bucket_of m id = get_or m.buckets (home id) []

  abbrev pub entry : HashManager → Bytes → Option HashElem
  entry m id = find_in_range (hash_of id) (hits id) (bucket_of m id)

  -- The position that the index gives for an id.
  abbrev pub view : HashManager → Bytes → Option Rid
  view m id = rid_of (entry m id)

  -- All the buckets are there, and no id is in its bucket twice.
  pub record IsIndex (m : HashManager) : Type 0 where
    pub width : length m.buckets ≡ hash_max_size
    pub once : (id : Bytes) → count_in_range (hash_of id) (hits id) (bucket_of m id) ≤ 1

  -- The index after a write at one id.
  pub record Writes (m : HashManager) (id : Bytes) (v : Option Rid) (m' : HashManager)
      : Type 0 where
    pub valid : IsIndex m'
    pub reads : (q : Bytes) → view m' q ≡ (if bytes_eq id q then v else view m q)

  pub bucket_at-home :
      (m : HashManager) (id : Bytes) → IsIndex m → bucket_at m (home id) ≡ returns (bucket_of m id)
  unfolding bucket_at
  bucket_at-home m id v =
      rw (get_elem?-get_or m.buckets (home id) [] (omega (arith, v.width, home-lt id)), bucket_at)

  module _ (m : HashManager) (valid : IsIndex m) (id : Bytes) (b : HashBucket) where
    bucket_of_put :
        (q : Bytes)
        → bucket_of (put_bucket m (home id) b) q ≡ (if home id == home q then b else bucket_of m q)
    unfolding put_bucket
    bucket_of_put q = elim (Bool-cases (home id == home q)) [
      | inl e ↦
          let same : home id ≡ home q = ground arith in
          rw (
            e,
            ← same,
            get_or-set_self m.buckets (home id) b [] (omega (arith, valid.width, home-lt id)),
          )
      | inr e ↦ rw (e, get_or-set_ne m.buckets (home id) (home q) b [] (ground arith))
    ]

    module _ (v : Option HashElem)
        (reads : (q : Bytes)
          → home id ≡ home q
          → find_in_range (hash_of q) (hits q) b ≡ (if bytes_eq id q then v else entry m q)) where
      entry-put :
          (q : Bytes)
          → entry (put_bucket m (home id) b) q ≡ (if bytes_eq id q then v else entry m q)
      entry-put q = elim (Bool-cases (home id == home q)) [
        | inl e ↦ rw (bucket_of_put q, e) (reads q (ground arith))
        | inr e ↦ rw (bucket_of_put q, e) (ground (arith, home_congr id q))
      ]

      -- A write that replaces the bucket of one id.
      pub put-Writes :
          ((q : Bytes) → home id ≡ home q → count_in_range (hash_of q) (hits q) b ≤ 1)
          → Writes m id (rid_of v) (put_bucket m (home id) b)
      put-Writes few = record {
        valid = record {
          width = unfold put_bucket in length-set m.buckets (home id) b ∙ valid.width;
          once = λ q. elim (Bool-cases (home id == home q)) [
            | inl e ↦ rw (bucket_of_put q, e) (few q (ground arith))
            | inr e ↦ rw (bucket_of_put q, e) (valid.once q)
          ];
        };
        reads = λ q. rw (view, entry-put q) (ground arith);
      }

  pub entry-none : (m : HashManager) (id : Bytes) → view m id ≡ none → entry m id ≡ none
  entry-none m id h = ground arith

  module _ (m : HashManager) (valid : IsIndex m) (id : Bytes) where
    -- A new entry under an id that the bucket does not hold.
    module _ (rid : Rid) (absent : view m id ≡ none) where
      abbrev fresh : HashElem
      fresh = record { key = id; rid = rid }

      pub insert_reads :
          (q : Bytes)
          → home id ≡ home q
          → find_in_range (hash_of q) (hits q) (insert (hash_of id) fresh (bucket_of m id))
            ≡ (if bytes_eq id q then some fresh else entry m q)
      insert_reads q same =
          let step = find-insert (hash_of q) (hits q) (hash_of id) fresh (bucket_of m id) in
          elim (Bool-cases (bytes_eq id q)) [
            | inl h ↦
                let p : id ≡ q = bytes_eq→eq id q h in
                rw (← p) (
                  ground (
                    arith,
                    bytes_eq_refl id,
                    find-insert (hash_of id) (hits id) (hash_of id) fresh (bucket_of m id)
                        (λ _. entry-none m id absent),
                  ))
            | inr h ↦ rw (← same) (ground (arith, step))
          ]

      pub insert_once :
          (q : Bytes)
          → home id ≡ home q
          → count_in_range (hash_of q) (hits q) (insert (hash_of id) fresh (bucket_of m id)) ≤ 1
      insert_once q same =
          let step = count-insert (hash_of q) (hits q) (hash_of id) fresh (bucket_of m id) in
          elim (Bool-cases (bytes_eq id q)) [
            | inl h ↦
                let p : id ≡ q = bytes_eq→eq id q h in
                rw (← p) (
                  ground (
                    arith,
                    count-insert (hash_of id) (hits id) (hash_of id) fresh (bucket_of m id),
                    count-find_none (hash_of id) (hits id) (bucket_of m id)
                        (entry-none m id absent),
                  ))
            | inr h ↦ rw (step, h) (rw same (ground (arith, valid.once q)))
          ]

    abbrev pruned : HashBucket
    pruned = erase_in_range (hash_of id) (hits id) (bucket_of m id)

    other_misses :
        (q : Bytes)
        → bytes_eq id q ≡ false
        → (it : HashElem) → hits id it ≡ true
        → hits q it ≡ false
    other_misses q h it hit = rw (bytes_eq→eq it.key id hit) h

    pub erase_reads :
        (q : Bytes)
        → home id ≡ home q
        → find_in_range (hash_of q) (hits q) pruned ≡ (if bytes_eq id q then none else entry m q)
    erase_reads q same = elim (Bool-cases (bytes_eq id q)) [
      | inl h ↦
          let p : id ≡ q = bytes_eq→eq id q h in
          rw (← p, bytes_eq_refl id)
            (find-erase_self (hash_of id) (hits id) (bucket_of m id) (valid.once id))
      | inr h ↦
          rw
            (
              h,
              find-erase_other (hash_of q) (hits q) (hash_of id) (hits id) (bucket_of m id)
                  (other_misses q h),
            )
            (rw same)
    ]

    pub erase_once : (q : Bytes) → home id ≡ home q → count_in_range (hash_of q) (hits q) pruned ≤ 1
    erase_once q same =
        let le = count-erase-le (hash_of q) (hits q) (hash_of id) (hits id) (bucket_of m id) in
        let same_bucket : bucket_of m id ≡ bucket_of m q = rw same in
        omega (arith, le, rw (← same_bucket) at (valid.once q))
