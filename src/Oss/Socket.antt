-- ===== src/Oss/Socket.antt =====
-- ossSocket (include/ossSocket.hpp, oss/ossSocket.cpp). What the system calls answer stands in the
-- socket as lists, in their order; a call that has no answer yet waits. Addresses are left out.
use edbc.Base.{
  ℕ, ◌+◌, ◌-◌, ◌^◌, Bool, true, false, not, ◌&&◌, Option, none, some, List, [], ◌∷◌, ◌++◌, ltb,
  ◌==◌, if◌then◌else◌, length, take, drop,
}
use edbc.Base.Outcome.{Outcome, returns, blocked, ◌>>=◌, Rc}
use edbc.Base.Outcome.Rc.{os_error, edb_ok, edb_network, edb_timeout, edb_network_close}
use edbc.Base.Bytes.{Bytes}

-- The errno values that the code asks for; EWOULDBLOCK is EAGAIN.
abbrev pub eintr : ℕ
eintr = 4

abbrev pub eagain : ℕ
eagain = 11

abbrev pub max_recv_retries : ℕ
max_recv_retries = 5

-- select on the one descriptor: it is ready (the answer 1), the time is over (0), or an errno.
pub data Poll : Type 0 where
  ready : Poll
  elapsed : Poll
  failed : ℕ → Poll

-- What comes in: bytes, of which a call of recv takes as many as it asks for (no bytes are the
-- end of the connection), or an errno.
pub data Arrival : Type 0 where
  arrives : Bytes → Arrival
  fails : ℕ → Arrival

-- What a call of send does: it takes as many bytes, if there are so many, or gives an errno.
pub data Acceptance : Type 0 where
  takes : ℕ → Acceptance
  refuses : ℕ → Acceptance

-- `alive` is what isConnected finds; `sent` is what the peer is given; `timeout` is timeout_.
pub record Socket : Type 0 where
  pub init : Bool
  pub timeout : ℕ
  pub alive : Bool
  pub polls : List Poll
  pub arrivals : List Arrival
  pub acceptances : List Acceptance
  pub sent : Bytes

-- How the loop around select is left: by `break`, with the answer of select in `rc`, or to
-- `error:`, with this code.
pub data Waited : Type 0 where
  answered : ℕ → Waited
  quits : Rc → Waited

-- The loop around select: the code of a time-out is the caller's.
unfoldable pub wait_ready : Rc → List Poll → Outcome (Waited × List Poll)
wait_ready late [] = blocked
wait_ready late (ready ∷ ps) = returns (answered 1, ps)
wait_ready late (elapsed ∷ ps) = returns (quits late, ps)
wait_ready late (failed e ∷ ps) =
    let rest = wait_ready late ps in if e == eintr then rest else returns (quits (os_error e), ps)

-- The loop of send, with `rc` as it is before: the code, what was sent, and the answers left. A
-- refusal leaves `rc` as it was.
unfoldable pub send_loop : Rc → List Acceptance → Bytes → Outcome (Rc × Bytes × List Acceptance)
send_loop rc qs [] = returns (edb_ok, [], qs)
send_loop rc [] (b ∷ msg) = blocked
send_loop rc (refuses e ∷ qs) (b ∷ msg) = returns (rc, [], qs)
send_loop rc (takes n ∷ qs) (b ∷ msg) = do
  (rc', sent, qs') ← send_loop rc qs (drop n (b ∷ msg))
  returns (rc', take n (b ∷ msg) ++ sent, qs')

-- send, of the first `len` bytes that the caller has.
unfoldable pub send : Socket → Bytes → Outcome (Rc × Socket)
send s msg =
    let go = (do
      (w, ps) ← wait_ready edb_network s.polls
      elim w [
        | answered n ↦ do
          (rc, sent, qs) ← send_loop (os_error n) s.acceptances msg
          returns (rc, record s { polls = ps; acceptances = qs; sent = s.sent ++ sent })
        | quits rc ↦ returns (rc, record s { polls = ps })
      ]) in
    if length msg == 0 then returns (edb_ok, s) else go

-- The loop of recv for `len` bytes, with `got` received and `retry` interruptions so far: the
-- code, the bytes, and what is still to come. MSG_PEEK leaves `rc` as it is before.
unfoldable pub recv_loop :
    Rc → ℕ → Bool → ℕ → List Arrival → ℕ → Bytes → Outcome (Rc × Bytes × List Arrival)
recv_loop rc timeout peek retry [] len got = if len == 0 then returns (edb_ok, got, []) else blocked
recv_loop rc timeout peek retry (arrives bs ∷ qs) len got =
    let rest = recv_loop rc timeout peek retry qs (len - length bs) (got ++ bs) in
    if len == 0
    then returns (edb_ok, got, arrives bs ∷ qs)
    else if length bs == 0
    then returns (edb_network_close, got, qs)
    else if peek
    then returns (rc, got ++ take len bs, arrives bs ∷ qs)
    else if ltb len (length bs)
    then returns (edb_ok, got ++ take len bs, arrives (drop len bs) ∷ qs)
    else rest
recv_loop rc timeout peek retry (fails e ∷ qs) len got =
    let rest = recv_loop rc timeout peek (retry + 1) qs len got in
    if len == 0
    then returns (edb_ok, got, fails e ∷ qs)
    else if e == eagain && ltb 0 timeout
    then returns (edb_network, got, qs)
    else if e == eintr && ltb retry max_recv_retries
    then rest
    else returns (edb_network, got, qs)

-- recv: the code, the bytes that stand at `msg` afterwards, and the socket.
unfoldable pub recv : Socket → ℕ → Bool → Outcome ((Rc × Bytes) × Socket)
recv s len peek =
    let go = (do
      (w, ps) ← wait_ready edb_timeout s.polls
      elim w [
        | answered n ↦ do
          (rc, got, qs) ← recv_loop (os_error n) s.timeout peek 0 s.arrivals len []
          returns ((rc, got), record s { polls = ps; arrivals = qs })
        | quits rc ↦ returns ((rc, []), record s { polls = ps })
      ]) in
    if len == 0 then returns ((edb_ok, []), s) else go

-- The one call of recvNonBlock, on what comes in first.
unfoldable pub recv_once : ℕ → Bool → List Arrival → ℕ → Outcome (Rc × Bytes × List Arrival)
recv_once timeout peek [] len = blocked
recv_once timeout peek (arrives bs ∷ qs) len =
    let left = if ltb len (length bs) then arrives (drop len bs) ∷ qs else qs in
    if length (take len bs) == 0
    then returns (edb_network_close, [], qs)
    else returns (edb_ok, take len bs, if peek then arrives bs ∷ qs else left)
recv_once timeout peek (fails e ∷ qs) len =
    if e == eagain && ltb 0 timeout
    then returns (edb_network, [], qs)
    else returns (os_error e, [], qs)

-- recvNonBlock; the new value of `len` is the number of bytes.
unfoldable pub recv_non_block : Socket → ℕ → Bool → Outcome ((Rc × Bytes) × Socket)
recv_non_block s len peek = do
  (w, ps) ← wait_ready edb_timeout s.polls
  elim w [
    | answered n ↦ do
      (rc, got, qs) ← recv_once s.timeout peek s.arrivals len
      returns ((rc, got), record s { polls = ps; arrivals = qs })
    | quits rc ↦ returns ((rc, []), record s { polls = ps })
  ]

abbrev pub close : Socket → Socket
close s = record s { init = false }

-- accept: the code, *sock, and the listening socket. An error closes that one.
unfoldable pub accept : Socket → ℕ → Option ℕ → Outcome ((Rc × ℕ) × Socket)
accept s sock accepted = do
  (w, ps) ← wait_ready edb_timeout s.polls
  let s' = record s { polls = ps }
  returns (elim w [
    | answered n ↦ elim accepted [
      | some fd ↦ ((edb_ok, fd), s')
      | none ↦ ((edb_network, 2 ^ 32 - 1), close s')
    ]
    | quits edb_timeout ↦ ((edb_timeout, 0), s')
    | quits other ↦ ((other, sock), close s')
  ])

-- connect, by whether connect, getsockname and getpeername succeed.
unfoldable pub connect : Bool → Bool → Bool → Rc
connect connected named peer_named =
    if not connected
    then edb_network
    else if not named
    then edb_network
    else if not peer_named
    then edb_network
    else edb_ok

-- initSocket, by whether socket() succeeds. The code of setTimeout is not looked at.
unfoldable pub init_socket : Bool → Socket → Rc × Socket
init_socket made s =
    if s.init
    then (edb_ok, s)
    else if made
    then (edb_ok, record s { init = true })
    else (edb_network, s)

-- bindListen, by the answers of bind and listen. The codes of setsockopt are written over.
unfoldable pub bind_listen : ℕ → ℕ → Socket → ℕ × Socket
bind_listen bound listening s =
    if not (bound == 0)
    then (bound, close s)
    else if not (listening == 0)
    then (listening, close s)
    else (0, s)
