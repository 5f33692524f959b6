-- ===== src/Rtn/Init.antt =====
-- rtn::init (rtn/rtn.cpp): the index manager, and then the data file that fills it.
use edbc.Base.{ℕ, ◌≡◌, refl, Bool, true, not, Option, none, some, [], if◌then◌else◌}
use edbc.Base.Outcome.{Outcome, returns, ◌>>=◌, Rc, is_ok}
use edbc.Base.Outcome.Rc.{edb_ok, edb_sys, edb_oom}
use edbc.Base.Latch.{unlocked}
use edbc.Base.Bytes.{Bytes}
use edbc.Base.Json.{JsonLib}
use edbc.Ixm.Manager.{HashManager, init}
use edbc.Dms.File.{DmsFile, Os}
use edbc.Dms.Load.{Disk, initialize}
use edbc.Rtn.Methods.{Rtn}

-- The objects as their constructors leave them.
abbrev pub unopened : DmsFile
unopened = record { file_size = 0; pages = 0; body = []; free_space_map = []; rw_mutex = unlocked }

abbrev pub no_buckets : HashManager
no_buckets = record { buckets = [] }

-- What the allocations and the opening of the file answer.
pub record Start : Type 0 where
  pub allocated : Bool
  pub buckets_allocated : Bool
  pub name_copied : Bool
  pub opened : Rc

-- Where all of them succeed.
abbrev pub ready : Start
ready = record { allocated = true; buckets_allocated = true; name_copied = true; opened = edb_ok }

pub new_code : (init true no_buckets).0 ≡ edb_ok
unfolding init
new_code = refl

module _ (lib : JsonLib) (hash_fn : Bytes → ℕ) where
  -- The code, and the two objects; `none` where they could not be allocated.
  unfoldable pub rtn_init : Os → Start → ℕ → Disk → Outcome (Rc × Option Rtn)
  rtn_init os start fuel disk =
      let (rc, index) = init start.buckets_allocated no_buckets in
      let open_file = (do
        (rc', file, index') ←
            initialize lib hash_fn os start.name_copied start.opened fuel disk index
        returns (
          if is_ok rc' then edb_ok else edb_sys,
          some (record { index = index'; file = file }),
        )) in
      if not start.allocated
      then returns (edb_oom, none)
      else if not (is_ok rc)
      then returns (edb_sys, some (record { index = index; file = unopened }))
      else open_file
