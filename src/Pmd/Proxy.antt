-- ===== src/Pmd/Proxy.antt =====
-- pmdEntryPointProxy (pmd/pmdEdu.cpp), the function of every thread of the server: it waits for an
-- event, runs the function of its type, and gives itself back to the manager.
use edbc.Base.{
  ℕ, Bool, true, false, not, ◌&&◌, Option, none, some, List, [], ◌∷◌, ◌==◌, if◌then◌else◌,
}
use edbc.Base.Outcome.{Outcome, returns, fault, starved, ◌>>=◌, Rc}
use edbc.Base.Assoc.{lookup}
use edbc.Pmd.Edu.{
  EduType, type_code, tcplistener, EventType, none_event, terminate, resume, active, deactive, msg,
  timeout, lockwakeup, Event, EduCb, has_entry_point, wait_event,
}
use edbc.Pmd.Manager.{EduMgr, set_run, set_idle, wait_edu}
use edbc.Pmd.Service.{any_edu, return_edu}

-- isSystemEduType, by the types that are registered as system ones.
abbrev pub is_system_edu_type : EduType → Bool
is_system_edu_type t = type_code t == type_code tcplistener

-- The constructor without arguments, and reset.
abbrev pub no_event : Event
no_event = record { type_ = none_event; release = false; data_ = 0 }

-- The variables of the loop, with the manager, and whether the status is still NORMAL.
pub record Proxy : Type 0 where
  pub event : Event
  pub is_forced : Bool
  pub mgr : EduMgr
  pub normal : Bool

abbrev pub fresh_proxy : EduMgr → Bool → Proxy
fresh_proxy m normal = record { event = no_event; is_forced = false; mgr = m; normal = normal }

-- The control block is written in the queue where it stands.
abbrev pub write_edu : ℕ → EduCb → EduMgr → EduMgr
write_edu eid cb m = elim (lookup eid m.run_queue) [
  | some old ↦ set_run eid cb m
  | none ↦ set_idle eid cb m
]

abbrev pub is_resume : EventType → Bool
is_resume resume = true
is_resume none_event = false
is_resume terminate = false
is_resume active = false
is_resume deactive = false
is_resume msg = false
is_resume timeout = false
is_resume lockwakeup = false

-- The data is freed, and the event reset.
abbrev pub release_space : Bool → Event → Event
release_space forced e = if not forced && (not (e.data_ == 0) && e.release) then no_event else e

-- What the function of a type returns, and what it and the other threads do to the manager and
-- to the status until then.
abbrev pub EntryPoint : Type 0
EntryPoint = EduType → ℕ → EduMgr → Bool → Outcome (Rc × EduMgr × Bool)

module _ (exec : EntryPoint) (max_pool_size : ℕ) (eid : ℕ) where
  -- The branch of a RESUME event: the manager, and whether the status is still NORMAL.
  unfoldable pub run_entry : EduType → ℕ → EduMgr → Bool → Outcome (EduMgr × Bool)
  run_entry type arg m normal = do
    (_, m₁) ← wait_edu eid m
    (m₂, normal') ←
        if has_entry_point type
        then (do (rc, m', normal') ← exec type arg m₁ normal; returns (m', normal'))
        else returns (m₁, false)
    (_, m₃) ← wait_edu eid m₂
    returns (m₃, normal' && not (is_system_edu_type type))

  -- The loop's body behind waitEvent: *destroyed, and the variables.
  unfoldable pub act : EduType → Bool → Event → Proxy → Outcome (Bool × Proxy)
  act type forced event p = do
    (m, normal) ←
        if not forced && is_resume event.type_
        then run_entry type event.data_ p.mgr p.normal
        else returns (p.mgr, p.normal)
    ((rc, destroyed), m') ← return_edu max_pool_size eid forced true m
    returns (
      elim destroyed [ some d ↦ d | none ↦ false ],
      record { event = release_space forced event; is_forced = forced; mgr = m'; normal = normal },
    )

  -- The loop's body, by what waitEvent gives.
  unfoldable pub on_event : EduType → Proxy → Option Event × EduCb → Outcome (Bool × Proxy)
  on_event type p (some e, cb) = act type p.is_forced e (record p { mgr = write_edu eid cb p.mgr })
  on_event type p (none, cb) =
      let p' = record p { mgr = write_edu eid cb p.mgr } in
      let go = act type true p.event p' in if cb.is_forced then go else returns (false, p')

  -- The loop's body, where the event that comes in time is `arrival`. A thread whose control
  -- block is deleted reads freed memory.
  unfoldable pub proxy_round : Option Event → Proxy → Outcome (Bool × Proxy)
  proxy_round arrival p = elim (any_edu eid p.mgr) [
    | none ↦ fault
    | some cb ↦ wait_event cb true arrival >>= on_event cb.type_ p
  ]

  -- The loop, by what arrives in each round.
  unfoldable pub proxy_loop : List (Option Event) → Proxy → Outcome Proxy
  proxy_loop [] p = starved
  proxy_loop (arrival ∷ arrivals) p = do
    (destroyed, p') ← proxy_round arrival p
    elim destroyed [ true ↦ returns p' | false ↦ proxy_loop arrivals p' ]
