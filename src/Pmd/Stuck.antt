-- ===== src/Pmd/Stuck.antt =====
-- What becomes of a manager on which forceUserEdu was called (pmd/pmdEduMgr.cpp).
use edbc.Base.{ℕ, ◌≡◌, Bool, Option}
use edbc.Base.Outcome.{blocked}
use edbc.Base.Latch.{writing}
use edbc.Pmd.Edu.{EduType, Event}
use edbc.Pmd.Manager.{EduMgr, activate_edu, wait_edu}
use edbc.Pmd.Start.{Host, start_edu}
use edbc.Pmd.Service.{
  EduPrivilege, publish_event, wait_for_event, return_edu, force_edus, get_edu_cnt,
}

-- The manager while a thread has its latch for writing.
abbrev pub written : EduMgr → EduMgr
written m = record m { latch = writing }

-- No call that takes the latch goes on.
pub record IsStuck (m : EduMgr) : Type 0 where
  pub starts : (host : Host) (t : EduType) (arg eid : ℕ) → start_edu host t arg eid m ≡ blocked
  pub activates : (eid : ℕ) → activate_edu eid m ≡ blocked
  pub waits : (eid : ℕ) → wait_edu eid m ≡ blocked
  pub gives_back :
      (pool eid : ℕ) (forced wanted : Bool) → return_edu pool eid forced wanted m ≡ blocked
  pub publishes : (eid : ℕ) (e : Event) → publish_event eid e m ≡ blocked
  pub receives :
      (eid : ℕ) (limited : Bool) (arrival : Option Event)
      → wait_for_event eid limited arrival m ≡ blocked
  pub forces : (prop : EduPrivilege) → force_edus prop m ≡ blocked
  pub counts : (prop : EduPrivilege) → get_edu_cnt prop m ≡ blocked
