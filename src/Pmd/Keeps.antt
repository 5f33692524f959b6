-- ===== src/Pmd/Keeps.antt =====
-- Every operation of pmdEduMgr keeps what the manager keeps (pmd/pmdEduMgr.cpp).
use edbc.Base.{
  ℕ, ◌≡◌, refl, inl, inr, Bool, true, false, if◌then◌else◌, Bool-cases, Option-cases, arith,
}
use edbc.Base.Outcome.{Outcome, returns, throws, blocked, fault, starved}
use edbc.Base.Latch.{unlocked}
use edbc.Base.Assoc.{Assoc, lookup, put, map_where, map_where-inv}
use edbc.Pmd.Edu.{
  EduType, type_code, EduStatus, creating, running, waiting, idle, destroy, status_unknown, Event,
  EventType, EduCb, push_event, force, took, woken,
}
use edbc.Pmd.Manager.{
  EduMgr, under_w, under_r, activate_body, wait_body, destroy_body, deactivate_body, activate_edu,
  wait_edu, destroy_edu, deactivate_edu,
}
use edbc.Pmd.Service.{
  EduPrivilege, concerns, force_edus_body, force_edus, publish_body, publish_event, set_edu,
  regist_sys_edu,
}
use edbc.Pmd.Invariant.{
  IsLive, IsManaged, under_w-run, under_r-run, no_idle-lookup, set_run-IsManaged,
  activate_body-IsManaged, wait_body-IsManaged, destroy_body-IsManaged, deactivate_body-same,
}

-- Where the call returns, the manager is as it should be.
abbrev pub Settles {ℓ} : {A : Type ℓ} → Outcome (A × EduMgr) → Type 0
Settles (returns (a, n)) = IsManaged n
Settles throws = Unit {0}
Settles blocked = Unit {0}
Settles fault = Unit {0}
Settles starved = Unit {0}

pub if-Settles {ℓ} :
    {A : Type ℓ} (b : Bool) (x y : Outcome (A × EduMgr))
    → Settles x
    → Settles y
    → Settles (if b then x else y)
if-Settles true x y h k = h
if-Settles false x y h k = k

-- Fields that the predicate does not read.
with_tids : (m : EduMgr) (t : Assoc ℕ) → IsManaged m → IsManaged (record m { tid2eid_map = t })
with_tids m t h = record { free = h.free; no_idle = h.no_idle; live = h.live }

with_system_ids :
    (m : EduMgr) (t : Assoc ℕ) → IsManaged m → IsManaged (record m { system_edu_id_map = t })
with_system_ids m t h = record { free = h.free; no_idle = h.no_idle; live = h.live }

pub with_global : (m : EduMgr) (g : ℕ) → IsManaged m → IsManaged (record m { global_edu_id = g })
with_global m g h = record { free = h.free; no_idle = h.no_idle; live = h.live }

pub relatched : (m : EduMgr) → IsManaged m → IsManaged (record m { latch = unlocked })
relatched m h = record { free = refl; no_idle = h.no_idle; live = h.live }

module _ {ℓ} {A : Type ℓ} (m : EduMgr) (body : EduMgr → A × EduMgr) (h : IsManaged m)
    (k : IsManaged ((body m).1)) where
  pub under_w-Settles : Settles (under_w m body)
  under_w-Settles = rw (under_w-run m body h.free) (relatched _ k)

  pub under_r-Settles : Settles (under_r m body)
  under_r-Settles = rw (under_r-run m body h.free) (relatched _ k)

pub took-IsLive : (eid : ℕ) (cb : EduCb) (t : EventType) → IsLive eid cb → IsLive eid (took cb t)
took-IsLive eid cb EventType.terminate h = record { own_id = h.own_id; alive = h.alive }
took-IsLive eid cb EventType.none_event h = record { own_id = h.own_id; alive = omega arith }
took-IsLive eid cb EventType.resume h = record { own_id = h.own_id; alive = omega arith }
took-IsLive eid cb EventType.active h = record { own_id = h.own_id; alive = omega arith }
took-IsLive eid cb EventType.deactive h = record { own_id = h.own_id; alive = omega arith }
took-IsLive eid cb EventType.msg h = record { own_id = h.own_id; alive = omega arith }
took-IsLive eid cb EventType.timeout h = record { own_id = h.own_id; alive = omega arith }
took-IsLive eid cb EventType.lockwakeup h = record { own_id = h.own_id; alive = omega arith }

pub woken-IsLive : (eid : ℕ) (cb : EduCb) (s : EduStatus) → IsLive eid cb → IsLive eid (woken cb s)
woken-IsLive eid cb idle h = record { own_id = h.own_id; alive = omega arith }
woken-IsLive eid cb creating h = h
woken-IsLive eid cb running h = h
woken-IsLive eid cb waiting h = h
woken-IsLive eid cb destroy h = h
woken-IsLive eid cb status_unknown h = h

module _ (m : EduMgr) (h : IsManaged m) where
  pub activate_edu-Settles : (eid : ℕ) → Settles (activate_edu eid m)
  unfolding activate_edu
  activate_edu-Settles eid =
      under_w-Settles m (activate_body eid) h (activate_body-IsManaged m eid h)

  pub wait_edu-Settles : (eid : ℕ) → Settles (wait_edu eid m)
  unfolding wait_edu
  wait_edu-Settles eid = under_r-Settles m (wait_body eid) h (wait_body-IsManaged m eid h)

  pub destroy_edu-Settles : (eid : ℕ) → Settles (destroy_edu eid m)
  unfolding destroy_edu
  destroy_edu-Settles eid = under_w-Settles m (destroy_body eid) h (destroy_body-IsManaged m eid h)

  deactivate_body-IsManaged : (eid : ℕ) → IsManaged ((deactivate_body eid m).1)
  deactivate_body-IsManaged eid =
      rw (deactivate_body-same m eid h)
        (elim (Option-cases (lookup eid m.run_queue)) [ inl n ↦ rw n h | inr (cb, f) ↦ rw f h ])

  pub deactivate_edu-Settles : (eid : ℕ) → Settles (deactivate_edu eid m)
  unfolding deactivate_edu
  deactivate_edu-Settles eid =
      under_w-Settles m (deactivate_body eid) h (deactivate_body-IsManaged eid)

  publish_body-IsManaged : (eid : ℕ) (e : Event) → IsManaged ((publish_body eid e m).1)
  unfolding publish_body
  publish_body-IsManaged eid e = elim (Option-cases (lookup eid m.run_queue)) [
    | inl n ↦ rw (publish_body, n, no_idle-lookup m eid h) h
    | inr (cb, f) ↦
        let k = h.live eid cb f in
        rw (publish_body, f)
          (set_run-IsManaged m eid (push_event e cb) h
            (record { own_id = k.own_id; alive = k.alive }))
  ]

  pub publish_event-Settles : (eid : ℕ) (e : Event) → Settles (publish_event eid e m)
  unfolding publish_event
  publish_event-Settles eid e =
      under_r-Settles m (publish_body eid e) h (publish_body-IsManaged eid e)

  pub set_edu-Settles : (tid eid : ℕ) → Settles (set_edu tid eid m)
  unfolding set_edu
  set_edu-Settles tid eid =
      under_w-Settles m (λ n. (tt, record n { tid2eid_map = put tid eid n.tid2eid_map })) h
        (with_tids m _ h)

  pub regist_sys_edu-Settles : (t : EduType) (eid : ℕ) → Settles (regist_sys_edu t eid m)
  unfolding regist_sys_edu
  regist_sys_edu-Settles t eid =
      under_w-Settles m
        (λ n. (tt, record n { system_edu_id_map = put (type_code t) eid n.system_edu_id_map })) h
        (with_system_ids m _ h)

  force_edus_body-IsManaged : (prop : EduPrivilege) → IsManaged ((force_edus_body prop m).1)
  unfolding force_edus_body map_where
  force_edus_body-IsManaged prop = record {
    free = h.free;
    no_idle = rw h.no_idle;
    live = λ eid cb e.
        let (w, found, same) = map_where-inv eid (concerns prop m) force m.run_queue cb e in
        let k = h.live eid w found in
        elim (Bool-cases (concerns prop m eid)) [
          | inl t ↦
              let forced : cb ≡ force w = rw t at same in
              rw forced (record { own_id = k.own_id; alive = k.alive })
          | inr t ↦ let kept : cb ≡ w = rw t at same in rw kept k
        ];
  }

  pub force_edus-Settles : (prop : EduPrivilege) → Settles (force_edus prop m)
  unfolding force_edus
  force_edus-Settles prop =
      under_w-Settles m (force_edus_body prop) h (force_edus_body-IsManaged prop)
