-- ===== src/Ixm/Bucket.antt =====
-- One hash bucket: ixmHashElem and ixmHashBucket of include/ixm.hpp and ixm/ixm.cpp, and RID of
-- include/dmsRID.hpp. The bucket's latch is held for the whole of each operation, so an operation
-- is one step; the latch itself is left out.
use edbc.Base.{ℕ, Bool, Option, none, some}
use edbc.Base.Outcome.Rc.{edb_ok, edb_index_exist, edb_record_id_not_exist}
use edbc.Base.Outcome.{Rc}
use edbc.Base.Bytes.{Bytes, bytes_eq}
use edbc.Base.Multimap.{Multimap, insert, find_in_range, erase_in_range}

pub record Rid : Type 0 where
  pub pid : ℕ
  pub sid : ℕ

-- Its `==` compares the keys alone.
pub record HashElem : Type 0 where
  pub key : Bytes
  pub rid : Rid

abbrev pub elem_eq : HashElem → HashElem → Bool
elem_eq elem other = bytes_eq elem.key other.key

abbrev pub HashBucket : Type 0
HashBucket = Multimap HashElem

-- The loop over `equal_range` that three of the operations share.
abbrev pub find_elem : ℕ → HashElem → HashBucket → Option HashElem
find_elem hash_num elem b = find_in_range hash_num (λ it. elem_eq it elem) b

unfoldable pub is_id_exist : HashBucket → ℕ → HashElem → Rc
is_id_exist b hash_num elem = elim (find_elem hash_num elem b) [
  | none ↦ edb_ok
  | some it ↦ edb_index_exist
]

unfoldable pub create_index : HashBucket → ℕ → HashElem → Rc × HashBucket
create_index b hash_num elem = (edb_ok, insert hash_num elem b)

-- `elem` is read and written.
unfoldable pub find_index : HashBucket → ℕ → HashElem → Rc × HashElem
find_index b hash_num elem = elim (find_elem hash_num elem b) [
  | none ↦ (edb_record_id_not_exist, elem)
  | some it ↦ (edb_ok, record elem { rid = it.rid })
]

unfoldable pub remove_index : HashBucket → ℕ → HashElem → Rc × HashElem × HashBucket
remove_index b hash_num elem = elim (find_elem hash_num elem b) [
  | none ↦ (edb_record_id_not_exist, elem, b)
  | some it ↦ (edb_ok, it, erase_in_range hash_num (λ it. elem_eq it elem) b)
]
