-- ===== src/Pmd/Kernel.antt =====
-- The control block of the server (include/pmd.hpp, pmd/pmd.cpp), and its start and end
-- (pmd/pmdMain.cpp). The signals are numbers; the names of signals and the paths are left out.
use edbc.Base.{ℕ, Bool, true, false, ◌&&◌, ◌||◌, List, [], ◌∷◌, ltb, leb, ◌==◌, if◌then◌else◌}
use edbc.Base.Outcome.{Outcome, returns, starved, ◌>>=◌, Rc, is_ok}
use edbc.Base.Outcome.Rc.{edb_pmd_help_only}
use edbc.Base.Bytes.{Bytes}
use edbc.Pmd.Edu.{tcplistener}
use edbc.Pmd.Manager.{EduMgr}
use edbc.Pmd.Start.{Host, start_edu}

pub data EdbStatus : Type 0 where
  normal shutdown panic : EdbStatus

-- edb_kcb without its manager and its database.
pub record EdbKcb : Type 0 where
  pub svc_name : Bytes
  pub status : EdbStatus
  pub max_pool_size : ℕ

-- What readFromCmd leaves of the options.
pub record Options : Type 0 where
  pub service_name : Bytes
  pub pool_size : ℕ

abbrev pub edb_is_normal : EdbKcb → Bool
edb_is_normal k = elim (k.status) [ normal ↦ true | shutdown ↦ false | panic ↦ false ]

abbrev pub edb_is_shutdown : EdbKcb → Bool
edb_is_shutdown k = elim (k.status) [ normal ↦ false | shutdown ↦ true | panic ↦ false ]

abbrev pub shutdown_edb : EdbKcb → EdbKcb
shutdown_edb k = record k { status = shutdown }

-- edb_kcb::init; `opened` is what rtn::init returns.
abbrev pub kcb_init : Options → Rc → EdbKcb → Rc × EdbKcb
kcb_init options opened k = (
  opened,
  record { svc_name = options.service_name; status = normal; max_pool_size = options.pool_size },
)

abbrev pub max_signal_num : ℕ
max_signal_num = 65

-- isHandle_ in sigInfos.
unfoldable pub is_handled : ℕ → Bool
is_handled n =
    (leb 1 n && leb n 9)
    || (n == 11)
    || (n == 13)
    || (n == 15)
    || (n == 19)
    || (n == 30)
    || (n == 31)

unfoldable pub signal_handler : ℕ → EdbKcb → EdbKcb
signal_handler signal_num k =
    if (ltb 0 signal_num && ltb signal_num max_signal_num) && is_handled signal_num
    then shutdown_edb k
    else k

-- resolveCmdParams: `read` is what readFromCmd returns.
unfoldable pub resolve_cmd_params : Rc → Options → Rc → EdbKcb → Rc × EdbKcb
resolve_cmd_params read options opened k =
    if is_ok read then kcb_init options opened k else (read, k)

abbrev pub is_help : Rc → Bool
is_help edb_pmd_help_only = true
is_help _ = false

abbrev pub signals : List ℕ → EdbKcb → EdbKcb
signals [] k = k
signals (n ∷ ns) k = signals ns (signal_handler n k)

-- The loop of Main, by the signals that come while it sleeps.
unfoldable pub wait_for_end : List (List ℕ) → EdbKcb → Outcome EdbKcb
wait_for_end [] k = starved
wait_for_end (ns ∷ seconds) k =
    let rest = wait_for_end seconds (signals ns k) in if edb_is_normal k then rest else returns k

-- Main. A code of resolveCmdParams other than EDB_PMD_HELP_ONLY is written over.
unfoldable pub main :
    Rc → Options → Rc → Host → List (List ℕ) → EdbKcb → EduMgr → Outcome (Rc × EdbKcb × EduMgr)
main read options opened host seconds k m =
    let (rc, k') = resolve_cmd_params read options opened k in
    if is_help rc then returns (rc, k', m) else (do
      ((rc', eid), m') ← start_edu host tcplistener 0 0 m
      if is_ok rc'
          then (do k'' ← wait_for_end seconds k'; returns (rc', k'', m'))
          else returns (rc', k', m'))
