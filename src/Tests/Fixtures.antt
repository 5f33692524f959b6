-- ===== src/Tests/Fixtures.antt =====
-- Concrete data for the tests: a JSON library of numbers, a hash, and a file with one segment.
use edbc.Base.{
  ℕ, zero, suc, ◌≡◌, refl, sym, ap, ◌∙◌, true, Option, none, some, [], ◌∷◌, length, ltb, arith,
}
use edbc.Base.Outcome.Rc.{edb_ok}
use edbc.Base.Latch.{unlocked}
use edbc.Base.Bytes.{Bytes, IsText}
use edbc.Base.Memory.{Memory, store_bytes, store8, store32, load32}
use edbc.Base.Json.{JsonLib}
use edbc.Ixm.Bucket.{Rid}
use edbc.Ixm.Manager.{HashManager, init}
use edbc.Msg.Buffer.{Buffer, Allocator}
use edbc.Dms.File.{DmsFile, Os, page_to_offset, push_segment, add_pages}
use edbc.Dms.Page.{fresh_page, gap}
use edbc.Base.Multimap.{insert, upper_bound}
use edbc.Dms.Store.{Contents, IsStore, occurrences}
use edbc.Dms.Segment.{with_segment, outside_none}
use edbc.Dms.Extend.{push_segment-IsStore}

-- The object n is written as n digits 1 between two quotes; 0 has no id, and any other has itself.
abbrev pub digits : ℕ → Bytes
digits zero = []
digits (suc n) = 49 ∷ digits n

abbrev pub quote : ℕ → Bytes
quote n = 34 ∷ digits n

abbrev pub unquote : Bytes → Option ℕ
unquote [] = none
unquote (c ∷ cs) = some (length cs)

pub unquote-quote : (n : ℕ) → unquote (quote n) ≡ some n
unquote-quote n = ap some (go n)
  where
    go : (k : ℕ) → length (digits k) ≡ k
    go zero = refl
    go (suc k) = ap suc (go k)

pub digits-IsText : (n : ℕ) → IsText (digits n)
digits-IsText zero = tt
digits-IsText (suc n) = (omega arith, omega arith, digits-IsText n)

abbrev pub own_id : ℕ → Option ℕ
own_id zero = none
own_id (suc n) = some (suc n)

abbrev pub numbers : JsonLib
numbers = record {
  Json = ℕ;
  dump = quote;
  parse = unquote;
  id_field = own_id;
  parse-dump = unquote-quote;
  dump-IsText = λ n. (omega arith, omega arith, digits-IsText n);
}

abbrev pub hash_length : Bytes → ℕ
hash_length = length

abbrev pub no_rid : Rid
no_rid = record { pid = 7; sid = 7 }

abbrev pub new_index : HashManager
new_index = (init true (record { buckets = [] })).1

abbrev pub willing : Os
willing = record { stat = edb_ok; write_chunk = λ n. edb_ok; mmap = λ n. edb_ok }

-- A file of a header, without segments.
abbrev pub header_file : DmsFile
header_file = record {
  file_size = 65536;
  pages = 0;
  body = [];
  free_space_map = [];
  rw_mutex = unlocked;
}

abbrev pub nothing : Contents
nothing q = none

pub header_file-IsStore : IsStore header_file nothing
unfolding page_to_offset occurrences
header_file-IsStore = record {
  whole = λ s h. absurd (omega arith);
  holds = λ q. rw (outside_none header_file q (omega arith)) tt;
  once = λ q m e. let no : none ≡ some m = sym (outside_none header_file q (omega arith)) ∙ e in cc;
  entries = tt;
}

abbrev pub one_segment : DmsFile
one_segment = push_segment header_file

abbrev pub blank_pages : Contents
blank_pages = with_segment 0 nothing

pub one_segment-IsStore : IsStore one_segment blank_pages
one_segment-IsStore = (push_segment-IsStore header_file nothing header_file-IsStore refl).0

pub one_segment-free : one_segment.rw_mutex ≡ unlocked
unfolding push_segment
one_segment-free = refl

pub fresh_gap : gap fresh_page ≡ 4194276
unfolding gap fresh_page load32 store32 store8 store_bytes
fresh_gap = refl

pub first_page : upper_bound 15 one_segment.free_space_map ≡ some (4194276, 0)
unfolding push_segment add_pages upper_bound insert
first_page = refl

pub page_zero : page_to_offset one_segment 0 ≡ some fresh_page
unfolding push_segment page_to_offset
page_zero = refl

-- Memory that is zero, a buffer of 64 bytes, and an allocator with up to 1000.
abbrev pub zeros : Memory
zeros i = 0

abbrev pub plain : Buffer
plain = record { bytes = zeros; capacity = 64; heap = true }

abbrev pub modest : Allocator
modest = record { grants = λ n. ltb n 1000; fresh = zeros }
