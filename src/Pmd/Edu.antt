-- ===== src/Pmd/Edu.antt =====
-- The control block of a thread: include/pmdEdu.hpp, include/pmdEduEvent.hpp, and the queue of
-- include/ossQueue.hpp.
use edbc.Base.{ℕ, Bool, true, false, Option, none, some, List, [], ◌∷◌, ◌++◌, if◌then◌else◌}
use edbc.Base.Outcome.{Outcome, returns, blocked}

pub data EduType : Type 0 where
  tcplistener agent type_unknown : EduType

-- The value of the enumerator.
abbrev pub type_code : EduType → ℕ
type_code tcplistener = 0
type_code agent = 1
type_code type_unknown = 2

pub data EduStatus : Type 0 where
  creating running waiting idle destroy status_unknown : EduStatus

abbrev pub status_code : EduStatus → ℕ
status_code creating = 0
status_code running = 1
status_code waiting = 2
status_code idle = 3
status_code destroy = 4
status_code status_unknown = 5

pub data EventType : Type 0 where
  none_event terminate resume active deactive msg timeout lockwakeup : EventType

-- `data` stands for the pointer that the event carries.
pub record Event : Type 0 where
  pub type_ : EventType
  pub release : Bool
  pub data_ : ℕ

pub record EduCb : Type 0 where
  pub type_ : EduType
  pub status : EduStatus
  pub id : ℕ
  pub is_forced : Bool
  pub is_disconnected : Bool
  pub queue : List Event

-- The constructor of pmdEduCB.
abbrev pub new_edu : EduType → EduCb
new_edu t = record {
  type_ = t;
  status = creating;
  id = 0;
  is_forced = false;
  is_disconnected = false;
  queue = [];
}

abbrev pub set_status : EduStatus → EduCb → EduCb
set_status s cb = record cb { status = s }

abbrev pub set_type : EduType → EduCb → EduCb
set_type t cb = record cb { type_ = t }

abbrev pub set_id : ℕ → EduCb → EduCb
set_id eid cb = record cb { id = eid }

abbrev pub force : EduCb → EduCb
force cb = record cb { is_forced = true }

abbrev pub push_event : Event → EduCb → EduCb
push_event e cb = record cb { queue = cb.queue ++ e ∷ [] }

-- getEntryPointByType: whether the type has a function.
unfoldable pub has_entry_point : EduType → Bool
has_entry_point tcplistener = true
has_entry_point agent = true
has_entry_point type_unknown = false

-- The end of waitEvent, with an event of this type popped.
abbrev pub took : EduCb → EventType → EduCb
took cb terminate = record cb { is_disconnected = true }
took cb _ = set_status running cb

-- The start of waitEvent, by the status.
abbrev pub woken : EduCb → EduStatus → EduCb
woken cb idle = set_status waiting cb
woken cb _ = cb

-- pmdEduCB::waitEvent: the event, or none at the end of the time. With an empty queue it waits
-- for `arrival`, the event that another thread pushes in time, if there is one; without a limit of
-- time it waits for ever where there is none.
unfoldable pub wait_event : EduCb → Bool → Option Event → Outcome (Option Event × EduCb)
wait_event cb limited arrival = elim (cb.queue) [
  | e ∷ es ↦ returns (some e, took (record (woken cb cb.status) { queue = es }) e.type_)
  | [] ↦ elim arrival [
    | some e ↦ returns (some e, took (woken cb cb.status) e.type_)
    | none ↦ if limited then returns (none, woken cb cb.status) else blocked
  ]
]
