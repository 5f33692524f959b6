-- ===== src/Client/Receive.antt =====
-- ICommand::recvReply (client/command.cpp) on a reply that comes in pieces.
use edbc.Base.{
  ℕ, suc, ◌-◌, ◌≤◌, ◌<◌, ◌≡◌, refl, ap, ◌∙◌, Bool, true, false, some, List, ◌++◌, length,
  length-append, take, drop, take-append_inside, drop-append_inside, drop-append_behind, ltb,
  if◌then◌else◌, arith,
}
use edbc.Base.Outcome.{returns}
use edbc.Base.Outcome.Rc.{edb_ok}
use edbc.Base.Bytes.{Bytes}
use edbc.Base.Memory.{
  Memory, load32, store32, store_bytes, read_bytes, AgreeOn, load32_agree, load32-store32,
  length-read_bytes, take-read_bytes, drop-read_bytes, store_bytes-read_bytes,
}
use edbc.Msg.Buffer.{slt}
use edbc.Oss.Socket.{Poll, Arrival, Socket, recv}
use edbc.Oss.Recv.{settle, stream, Flows, recv-gathers}
use edbc.Pmd.Wire.{is_timeout}
use edbc.Client.Command.{Client, zeroed, client_buf_size, recv_until, recv_reply}

pub chosen {ℓ} : {A : Type ℓ} → (b : Bool) → b ≡ true → (x y : A) → (if b then x else y) ≡ x
chosen b e x y = rw e refl

-- What the server has sent: a reply of `total` bytes that begins with its length, and more.
pub record IsReply (r : Memory) (total : ℕ) (qs : List Arrival) (later : Bytes) : Type 0 where
  pub starts : AgreeOn 0 4 (store32 (λ _. 0) 0 total) r
  pub long : 16 ≤ total
  pub fits : total < client_buf_size
  pub flows : Flows 0 qs
  pub comes : stream qs ≡ read_bytes total r 0 ++ later

module _ (r : Memory) (total : ℕ) where
  -- The receive buffer afterwards: the reply, and zeros behind it.
  abbrev pub rest : Bytes
  rest = read_bytes (total - 4) r 4

  abbrev pub first : Memory
  first = store_bytes zeroed 0 (read_bytes 4 r 0)

  abbrev pub reply_memory : Memory
  reply_memory = store_bytes first 4 rest

  pub reply_memory-is : 16 ≤ total → (i : ℕ) → reply_memory i ≡ (if ltb i total then r i else 0)
  reply_memory-is long i = ground (
    arith,
    long,
    store_bytes-read_bytes first r 4 (total - 4) i,
    store_bytes-read_bytes zeroed r 0 4 i,
  )

module _ (r : Memory) (total : ℕ) (s : Socket) (later : Bytes) (alive : s.alive ≡ true)
    (h : IsReply r total s.arrivals later) (ps₁ ps₂ : List Poll) (calm : settle s.polls ≡ some ps₁)
    (calm' : settle ps₁ ≡ some ps₂) where
  abbrev all : Bytes
  all = read_bytes total r 0

  one_try :
      (fuel len : ℕ) (sock sock' : Socket) (got : Bytes)
      → recv sock len false ≡ returns ((edb_ok, got), sock')
      → recv_until (suc fuel) sock len ≡ returns ((edb_ok, got), sock')
  unfolding recv_until is_timeout
  one_try fuel len sock sock' got e = rw e

  length_read : load32 (first r total) 0 ≡ total
  length_read =
      load32_agree r (first r total) 0
        (λ i lo hi. store_bytes-read_bytes zeroed r 0 4 i ∙ ground arith)
      ∙ load32_agree (store32 (λ _. 0) 0 total) r 0 (λ i lo hi. h.starts i lo (omega arith))
      ∙ load32-store32 (λ _. 0) 0 total (omega (arith, h.fits))

  pub recv_reply-whole :
      (fuel : ℕ) (c : Client)
      → (qs : List Arrival) × (recv_reply (suc fuel) c s
          ≡ returns (
            (edb_ok, record c { recv_buf = reply_memory r total }),
            record s { polls = ps₂; arrivals = qs },
          ))
        × (stream qs ≡ later)
        × Flows 0 qs
  unfolding recv_reply
  recv_reply-whole fuel c =
      let size : length all ≡ total = length-read_bytes total r 0 in
      let tail = rest r total in
      let size' : length tail ≡ total - 4 = length-read_bytes (total - 4) r 4 in
      let (qs₁, run, left, flows) =
        recv-gathers s 4 ps₁ (omega arith) calm h.flows
          (rw h.comes (omega (arith, h.long, size, length-append all later))) in
      let four : take 4 (stream s.arrivals) ≡ read_bytes 4 r 0 =
        ap (take 4) h.comes
        ∙ take-append_inside 4 all later (omega (arith, size, h.long))
        ∙ take-read_bytes 4 total r 0 (omega (arith, h.long)) in
      let comes : stream qs₁ ≡ tail ++ later =
        left
        ∙ ap (drop 4) h.comes
        ∙ drop-append_inside 4 all later (omega (arith, size, h.long))
        ∙ ap (λ x. x ++ later) (drop-read_bytes 4 total r 0 (omega (arith, h.long))) in
      let (qs₂, run', left', flows') =
        recv-gathers (record s { polls = ps₁; arrivals = qs₁ }) (total - 4) ps₂
          (omega (arith, h.long)) calm' flows
          (rw comes (omega (arith, size', length-append tail later))) in
      let taken : take (total - 4) (stream qs₁) ≡ tail =
        ap (take (total - 4)) comes
        ∙ take-append_inside (total - 4) tail later (omega (arith, size'))
        ∙ take-read_bytes (total - 4) (total - 4) r 4 (omega arith) in
      let none_left : total - 4 - length tail ≡ 0 = omega (arith, size') in
      let over : slt client_buf_size total ≡ false = ground (arith, h.fits) in
      let under : slt total 4 ≡ false = ground (arith, h.fits, h.long) in
      let read = one_try fuel 4 s _ _ run in
      let read' = one_try fuel (total - 4) _ _ _ run' in
      (
        qs₂,
        (chosen s.alive alive _ _ ∙ rw (read, four, length_read, over, under, read', taken) refl),
        left'
            ∙ ap (drop (total - 4)) comes
            ∙ drop-append_behind (total - 4) tail later (omega (arith, size'))
            ∙ ap (λ k. drop k later) none_left,
        flows',
      )
