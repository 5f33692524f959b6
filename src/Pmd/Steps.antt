-- ===== src/Pmd/Steps.antt =====
-- The life of a pmdEduMgr as a sequence of calls, from every thread (pmd/pmdEduMgr.cpp).
use edbc.Base.{
  ℕ, ◌≡◌, refl, sym, ap, ◌∙◌, inl, inr, Bool, true, false, not, Option, none, some, List, [], ◌∷◌,
  if◌then◌else◌, Bool-cases, Option-cases, arith,
}
use mathlib.Core.Path.{subst}
use edbc.Base.Outcome.{Outcome, returns, throws, blocked, fault, starved, ◌>>=◌, Rc, is_ok}
use edbc.Base.Latch.{unlocked, w_lock, r_lock, w_unlock, r_unlock}
use edbc.Base.Assoc.{lookup}
use edbc.Pmd.Edu.{EduType, Event, EduCb, new_edu, set_id, push_event, wait_event, has_entry_point}
use edbc.Pmd.Manager.{EduMgr, is_poolable, set_run}
use edbc.Pmd.Start.{Host, resume_event, register_body, spawn_body, create_edu, idle_edu, start_edu}
use edbc.Pmd.Service.{
  force_user_edu, wait_for_event, got, any_edu, return_edu, after_destroy, after_deactivate,
}
use edbc.Pmd.Invariant.{
  IsLive, IsManaged, under_w-run, under_r-run, no_idle-lookup, set_run-IsManaged,
  erase_run-IsManaged,
}
use edbc.Pmd.Keeps.{
  Settles, if-Settles, with_global, relatched, took-IsLive, woken-IsLive, destroy_edu-Settles,
  deactivate_edu-Settles,
}

pub if_false {ℓ} : {A : Type ℓ} (b : Bool) → b ≡ false → (x y : A) → (if b then x else y) ≡ y
if_false b e x y = rw e

pub if_true {ℓ} : {A : Type ℓ} (b : Bool) → b ≡ true → (x y : A) → (if b then x else y) ≡ x
if_true b e x y = rw e

-- The control block after its waitEvent.
abbrev LiveAfter : ℕ → Outcome (Option Event × EduCb) → Type 0
LiveAfter eid (returns (e, cb)) = IsLive eid cb
LiveAfter eid throws = Unit {0}
LiveAfter eid blocked = Unit {0}
LiveAfter eid fault = Unit {0}
LiveAfter eid starved = Unit {0}

-- A queue can be changed.
queue-IsLive :
    (eid : ℕ) (cb : EduCb) (q : List Event) → IsLive eid cb → IsLive eid (record cb { queue = q })
queue-IsLive eid cb q k = record { own_id = k.own_id; alive = k.alive }

wait_event-LiveAfter :
    (eid : ℕ) (cb : EduCb) (q : List Event) (limited : Bool) (arrival : Option Event)
    → cb.queue ≡ q
    → IsLive eid cb
    → LiveAfter eid (wait_event cb limited arrival)
unfolding wait_event
wait_event-LiveAfter eid cb (e ∷ es) limited arrival is k =
    rw (wait_event, is)
      (took-IsLive eid _ e.type_ (queue-IsLive eid _ es (woken-IsLive eid cb cb.status k)))
wait_event-LiveAfter eid cb [] limited (some e) is k =
    rw (wait_event, is) (took-IsLive eid _ e.type_ (woken-IsLive eid cb cb.status k))
wait_event-LiveAfter eid cb [] true none is k =
    rw (wait_event, is) (woken-IsLive eid cb cb.status k)
wait_event-LiveAfter eid cb [] false none is k = rw (wait_event, is) tt

destroyed-Settles :
    (wanted : Bool) (o : Outcome (Rc × EduMgr))
    → Settles o
    → Settles (o >>= (λ s. returns (after_destroy wanted s)))
destroyed-Settles wanted (returns (rc, n)) h = h
destroyed-Settles wanted throws h = tt
destroyed-Settles wanted blocked h = tt
destroyed-Settles wanted fault h = tt
destroyed-Settles wanted starved h = tt

deactivated-Settles :
    (wanted : Bool) (o : Outcome (Rc × EduMgr))
    → Settles o
    → Settles (o >>= (λ s. returns (after_deactivate wanted s)))
deactivated-Settles wanted (returns (rc, n)) h = h
deactivated-Settles wanted throws h = tt
deactivated-Settles wanted blocked h = tt
deactivated-Settles wanted fault h = tt
deactivated-Settles wanted starved h = tt

module _ (m : EduMgr) (h : IsManaged m) where
  register_body-IsManaged : (t : EduType) → IsManaged ((register_body t m).1)
  unfolding register_body
  register_body-IsManaged t = elim (Option-cases (lookup m.global_edu_id m.run_queue)) [
    | inl n ↦
        rw (register_body, n, no_idle-lookup m m.global_edu_id h)
          (with_global _ _ (
            set_run-IsManaged m m.global_edu_id (set_id m.global_edu_id (new_edu t)) h
              (record { own_id = refl; alive = omega arith })))
    | inr (cb, f) ↦ rw (register_body, f) h
  ]

  pub spawn_body-IsManaged : (host : Host) (arg eid : ℕ) → IsManaged ((spawn_body host arg eid m).1)
  unfolding spawn_body
  spawn_body-IsManaged host arg eid = elim (Bool-cases host.spawns) [
    | inl t ↦
        rw (spawn_body, t)
          (elim (Option-cases (lookup eid m.run_queue)) [
            | inl n ↦ rw n h
            | inr (cb, f) ↦
                let k = h.live eid cb f in
                rw f (
                  set_run-IsManaged m eid (push_event (resume_event arg) cb) h
                    (record { own_id = k.own_id; alive = k.alive }))
          ])
    | inr t ↦ rw (spawn_body, t) (erase_run-IsManaged m eid h)
  ]

module _ (m : EduMgr) (h : IsManaged m) where
  pub create_edu-Settles :
      (host : Host) (t : EduType) (arg eid : ℕ) → Settles (create_edu host t arg eid m)
  unfolding create_edu
  create_edu-Settles host t arg eid =
      let n = record ((register_body t m).1) { latch = unlocked } in
      let k = relatched _ (register_body-IsManaged m h t) in
      if-Settles m.stop_service _ _ h (
        if-Settles (not (has_entry_point t)) _ _ h (
          if-Settles (not host.allocates) _ _ h (
            rw (under_w-run m (register_body t) h.free) (
              if-Settles (is_ok ((register_body t m).0.0)) _ _
                (spawn_body-IsManaged n k host arg ((register_body t m).0.1)) k))))

  -- The free latch, written or not, is the same manager.
  pub same_latch : record m { latch = unlocked } ≡ m
  same_latch = ap (λ l. record m { latch = l }) (sym h.free)

  none_pooled : (t : EduType) → (if is_poolable t then idle_edu m.idle_queue else none) ≡ none
  unfolding idle_edu
  none_pooled t = elim (Bool-cases (is_poolable t)) [ inl p ↦ rw (p, h.no_idle) | inr p ↦ rw p ]

  -- No thread is pooled, so startEdu creates one.
  pub start_edu-create :
      (host : Host) (t : EduType) (arg eid : ℕ)
      → m.stop_service ≡ false
      → start_edu host t arg eid m ≡ create_edu host t arg eid m
  unfolding start_edu w_lock w_unlock
  start_edu-create host t arg eid s = if_false m.stop_service s _ _ ∙ rw (h.free, none_pooled t)

  pub start_edu-Settles :
      (host : Host) (t : EduType) (arg eid : ℕ) → Settles (start_edu host t arg eid m)
  unfolding start_edu
  start_edu-Settles host t arg eid = elim (Bool-cases m.stop_service) [
    | inl s ↦ subst Settles (sym (if_true m.stop_service s _ _)) h
    | inr s ↦ rw (start_edu-create host t arg eid s) (create_edu-Settles host t arg eid)
  ]

  got-Settles :
      (eid : ℕ) (o : Outcome (Option Event × EduCb))
      → LiveAfter eid o
      → Settles (o >>= (λ r. returns (got r (λ c. set_run eid c (record m { latch = unlocked })))))
  got-Settles eid (returns (none, cb)) k = set_run-IsManaged _ eid cb (relatched m h) k
  got-Settles eid (returns (some e, cb)) k = set_run-IsManaged _ eid cb (relatched m h) k
  got-Settles eid throws k = tt
  got-Settles eid blocked k = tt
  got-Settles eid fault k = tt
  got-Settles eid starved k = tt

  -- waitEvent, where it returns.
  pub wait_for_event-Settles :
      (eid : ℕ) (limited : Bool) (arrival : Option Event)
      → Settles (wait_for_event eid limited arrival m)
  unfolding wait_for_event r_lock r_unlock
  wait_for_event-Settles eid limited arrival = elim (Option-cases (lookup eid m.run_queue)) [
    | inl n ↦ rw (wait_for_event, h.free, n, no_idle-lookup m eid h) (relatched m h)
    | inr (cb, f) ↦
        rw (wait_for_event, h.free, f)
          (got-Settles eid (wait_event cb limited arrival)
            (wait_event-LiveAfter eid cb cb.queue limited arrival refl (h.live eid cb f)))
  ]

  pub return_edu-Settles :
      (max_pool_size eid : ℕ) (forced wanted : Bool)
      → Settles (return_edu max_pool_size eid forced wanted m)
  unfolding return_edu
  return_edu-Settles max_pool_size eid forced wanted =
      rw (under_r-run m (λ n. (any_edu eid n, n)) h.free) (elim (Option-cases (any_edu eid m)) [
        | inl n ↦ rw n (if-Settles wanted _ _ (relatched m h) tt)
        | inr (cb, f) ↦ rw f (
            if-Settles _ _ _
              (destroyed-Settles wanted _ (destroy_edu-Settles _ (relatched m h) eid))
              (deactivated-Settles wanted _ (deactivate_edu-Settles _ (relatched m h) eid)))
      ])

  pub force_user_edu-blocked : (eid : ℕ) → force_user_edu eid m ≡ blocked
  unfolding force_user_edu w_lock r_lock
  force_user_edu-blocked eid = rw h.free
