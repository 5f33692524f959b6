-- ===== src/Agent/Incoming.antt =====
-- The receive part of a turn of pmdAgentEntryPoint (pmd/pmdAgent.cpp): a message that comes in
-- pieces is put together in a buffer that takes it.
use edbc.Base.{
  ℕ, ◌+◌, ◌-◌, ◌^◌, ◌≤◌, ◌<◌, ◌≡◌, refl, sym, ap, ◌∙◌, inl, inr, Bool, true, false, some, List, ◌∷◌,
  ◌++◌, length, length-append, take, drop, take-append_inside, drop-append_inside,
  drop-append_behind, ltb, leb, Bool-cases, le→leb, arith,
}
use mathlib.Core.Path.{fun_ext}
use edbc.Base.Outcome.{returns}
use edbc.Base.Outcome.Rc.{edb_ok}
use edbc.Base.Bytes.{Bytes}
use edbc.Base.Memory.{
  Memory, load32, store32, store8, store_bytes, le32, read_bytes, AgreeOn, load32_agree,
  load32-store32, length-read_bytes, take-read_bytes, drop-read_bytes, store_bytes-read_bytes,
}
use edbc.Msg.Buffer.{Buffer, Allocator, is_negative, receive}
use edbc.Oss.Socket.{Poll, Arrival, Socket}
use edbc.Oss.Recv.{stream, Flows}
use edbc.Pmd.Manager.{EduMgr}
use edbc.Pmd.Wire.{quiet, pmd_recv-gathers}
use edbc.Rtn.Methods.{Rtn}
use edbc.Agent.Room.{rounded_up, rounded_up-bounds, round_upto-rounded_up}
use edbc.Agent.Loop.{Agent, agent_with, receive_part, make_room, edb_page_size}

-- What the peer has sent: a message of `total` bytes that begins with its length, and more.
pub record IsIncoming (c : Memory) (total : ℕ) (qs : List Arrival) (later : Bytes) : Type 0 where
  pub starts : AgreeOn 0 4 (store32 (λ _. 0) 0 total) c
  pub long : 8 ≤ total
  pub short : total + 8192 < 2 ^ 31
  pub flows : Flows 0 qs
  pub comes : stream qs ≡ read_bytes total c 0 ++ later

pub store32_same : (m n : Memory) (v i : ℕ) → i < 4 → store32 m 0 v i ≡ store32 n 0 v i
unfolding store32 store_bytes store8 le32
store32_same m n v i h = ground arith

module _ (msg : Buffer) (total : ℕ) (qs : List Arrival) (later : Bytes)
    (h : IsIncoming msg.bytes total qs later) where
  abbrev pub c : Memory
  c = msg.bytes

  pub header_length : load32 c 0 ≡ total
  header_length =
      load32_agree (store32 (λ _. 0) 0 total) c 0 (λ i lo hi. h.starts i lo (omega arith))
      ∙ load32-store32 (λ _. 0) 0 total (omega (arith, h.short))

  pub first_four : take 4 (stream qs) ≡ read_bytes 4 c 0
  first_four = rw h.comes (
      take-append_inside 4 (read_bytes total c 0) later
        (omega (arith, h.long, length-read_bytes total c 0))
      ∙ take-read_bytes 4 total c 0 (omega (arith, h.long)))

  pub after_four : drop 4 (stream qs) ≡ read_bytes (total - 4) c 4 ++ later
  after_four = rw h.comes (
      drop-append_inside 4 (read_bytes total c 0) later
        (omega (arith, h.long, length-read_bytes total c 0))
      ∙ ap (λ x. x ++ later) (drop-read_bytes 4 total c 0 (omega (arith, h.long))))

  -- The bytes behind the first four, stored behind them, are the message with a NUL behind it.
  pub received_whole :
      (b : Memory) (room : ℕ)
      → AgreeOn 0 4 c b
      → record {
        bytes = store8 (store_bytes b 4 (read_bytes (total - 4) c 4)) total 0;
        capacity = room;
        heap = true;
      }
        ≡ receive msg total b room
  unfolding receive store8
  received_whole b room first =
      ap (λ (f : Memory). record { bytes = f; capacity = room; heap = true })
        (fun_ext (λ i.
          ground
            (arith, h.long, store_bytes-read_bytes b c 4 (total - 4) i, first i (omega arith))))

  module _ (alloc : Allocator) (rb sb : Buffer) (sock : Socket) (fs : List Bool) (mgr : EduMgr)
      (rtn : Rtn) (heap : rb.heap ≡ true) (four : 4 ≤ rb.capacity) (from : sock.arrivals ≡ qs) where
    abbrev pub agent : Agent
    agent = agent_with rb sb sock (false ∷ fs) mgr rtn

    abbrev pub with_first : Buffer
    with_first = record rb { bytes = store_bytes rb.bytes 0 (read_bytes 4 c 0) }

    pub first_agree : AgreeOn 0 4 c with_first.bytes
    first_agree i lo hi = store_bytes-read_bytes rb.bytes c 0 4 i ∙ ground arith

    -- The length is received.
    pub first_part :
        (fs' : List Bool) (ps : List Poll)
        → quiet fs sock.polls ≡ some (fs', ps)
        → (qs' : List Arrival) × (receive_part agent 0 4
            ≡ returns (
              edb_ok,
              record agent {
                recv_buf = with_first;
                sock = record sock { polls = ps; arrivals = qs' };
                forced = fs';
              },
            ))
          × (stream qs' ≡ read_bytes (total - 4) c 4 ++ later)
          × Flows 0 qs'
    unfolding receive_part
    first_part fs' ps calm =
        let (qs', run, left, flows) =
          pmd_recv-gathers sock 4 (omega arith) (rw from h.flows)
            (rw (from, h.comes)
              (omega (
                arith,
                h.long,
                length-append (read_bytes total c 0) later,
                length-read_bytes total c 0,
              )))
            fs sock.polls fs' ps calm in
        (
          qs',
          rw (le→leb (0 + 4) rb.capacity (omega arith), run, from, first_four),
          left ∙ ap (λ x. drop 4 (stream x)) from ∙ after_four,
          flows,
        )

    -- There is room for the message, or a larger buffer is had.
    pub room_for :
        (s : Socket) (fs' : List Bool)
        → alloc.grants (rounded_up (total + 1) edb_page_size) ≡ true
        → (rb' : Buffer) × (make_room alloc
              (record agent { recv_buf = with_first; sock = s; forced = fs' })
              total
            ≡ returns (
              edb_ok,
              record agent { recv_buf = rb'; recv_size = rb'.capacity; sock = s; forced = fs' },
            ))
          × (rb'.heap ≡ true)
          × (total < rb'.capacity)
          × AgreeOn 0 4 c rb'.bytes
    unfolding make_room
    room_for s fs' granted =
        let small : leb (2 ^ 31) (total + 1) ≡ false = ground (arith, h.short) in
        elim (Bool-cases (ltb rb.capacity (total + 1))) [
          | inr t ↦ (with_first, rw (small, t), heap, ground arith, first_agree)
          | inl t ↦
              let size = rounded_up (total + 1) edb_page_size in
              let (_, above, below) = rounded_up-bounds (total + 1) edb_page_size (omega arith) in
              let not_negative : is_negative size ≡ false = ground (arith, below, h.short) in
              (
                record { bytes = store32 alloc.fresh 0 total; capacity = size; heap = true },
                rw
                    (
                      small,
                      t,
                      round_upto-rounded_up (total + 1) edb_page_size (omega arith)
                          (omega (arith, h.short)),
                      not_negative,
                      granted,
                    )
                    refl,
                refl,
                omega arith,
                λ i lo hi. store32_same alloc.fresh (λ _. 0) total i hi ∙ sym (h.starts i lo hi),
              )
        ]

    -- The rest of the message is received.
    pub second_part :
        (rb' : Buffer) (qs' : List Arrival) (ps ps' : List Poll) (fs' fs'' : List Bool)
        → total < rb'.capacity
        → stream qs' ≡ read_bytes (total - 4) c 4 ++ later
        → Flows 0 qs'
        → quiet fs' ps ≡ some (fs'', ps')
        → (qs'' : List Arrival) × (receive_part
              (record agent {
                recv_buf = rb';
                recv_size = rb'.capacity;
                sock = record sock { polls = ps; arrivals = qs' };
                forced = false ∷ fs';
              })
              4
              (total - 4)
            ≡ returns (
              edb_ok,
              record agent {
                recv_buf = record rb' {
                  bytes = store_bytes rb'.bytes 4 (read_bytes (total - 4) c 4);
                };
                recv_size = rb'.capacity;
                sock = record sock { polls = ps'; arrivals = qs'' };
                forced = fs'';
              },
            ))
          × (stream qs'' ≡ later)
    unfolding receive_part
    second_part rb' qs' ps ps' fs' fs'' room comes flows calm =
        let n = total - 4 in
        let part = read_bytes n c 4 in
        let size : length part ≡ n = length-read_bytes n c 4 in
        let (qs'', run, left, _) =
          pmd_recv-gathers (record sock { arrivals = qs' }) n (omega (arith, h.long)) flows
            (rw comes (omega (arith, length-append part later, size))) fs' ps fs'' ps' calm in
        let taken : take n (stream qs') ≡ part =
          ap (take n) comes
          ∙ take-append_inside n part later (omega (arith, size))
          ∙ take-read_bytes n n c 4 (omega arith) in
        let all_taken : n - length part ≡ 0 = omega (arith, size) in
        let rest : drop n (stream qs') ≡ later =
          ap (drop n) comes
          ∙ drop-append_behind n part later (omega (arith, size))
          ∙ ap (λ k. drop k later) all_taken in
        (
          qs'',
          rw (le→leb (4 + (total - 4)) rb'.capacity (omega (arith, h.long)), run, taken),
          left ∙ rest,
        )
