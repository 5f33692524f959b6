-- ===== src/Pmd/Shutdown.antt =====
-- pmdEduMgr::destroyAllInternal (pmd/pmdEduMgr.cpp). What the other threads do to the manager
-- while it sleeps is a list, an entry for each round of the two loops.
use edbc.Base.{ℕ, ◌+◌, ◌%◌, ◌^◌, true, List, [], ◌∷◌, ◌==◌, if◌then◌else◌}
use edbc.Base.Outcome.{Outcome, returns, starved, ◌>>=◌, Rc}
use edbc.Base.Outcome.Rc.{edb_ok}
use edbc.Pmd.Manager.{EduMgr}
use edbc.Pmd.Service.{
  EduPrivilege, user, all, get_edu_cnt, force_edus, set_stop_service, set_destroyed,
}

abbrev pub Others : Type 0
Others = EduMgr → Outcome EduMgr

-- A loop until no thread is left; every fiftieth round forces the threads.
unfoldable pub drain : EduPrivilege → ℕ → List Others → EduMgr → Outcome (List Others × EduMgr)
drain prop timer_cnt [] m = do
  (total, m₁) ← get_edu_cnt prop m
  if total == 0 then returns ([], m₁) else starved
drain prop timer_cnt (others ∷ rounds) m = do
  (total, m₁) ← get_edu_cnt prop m
  let go = (do
    (_, m₂) ← if timer_cnt % 50 == 0 then force_edus prop m₁ else returns (edb_ok, m₁)
    m₃ ← others m₂
    drain prop ((timer_cnt + 1) % 2 ^ 32) rounds m₃)
  if total == 0 then returns (others ∷ rounds, m₁) else go

unfoldable pub destroy_all : List Others → EduMgr → Outcome (Rc × EduMgr)
destroy_all rounds m = do
  (left, m₁) ← drain user 0 rounds (set_stop_service true (set_destroyed true m))
  (_, m₂) ← drain all 0 left m₁
  returns (edb_ok, m₂)
