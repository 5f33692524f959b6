-- ===== src/Client/Shell.antt =====
-- The shell around the commands (client/edb.cpp, include/edb.hpp, client/commandFactory.cpp): a
-- line is read, cut into words, and its command is run. What goes to the screen is left out.
use edbc.Base.{
  ℕ, zero, suc, ◌+◌, ◌-◌, Bool, true, false, not, ◌&&◌, Option, none, some, List, [], ◌∷◌, ◌++◌,
  ltb, ◌==◌, if◌then◌else◌, length, take, drop,
}
use edbc.Base.Outcome.{Outcome, returns, fault, starved, ◌>>=◌}
use edbc.Base.Bytes.{Bytes, bytes_eq}
use edbc.Base.Memory.{Memory, store8, c_string}
use edbc.Base.Json.{JsonLib}
use edbc.Msg.Buffer.{Allocator}
use edbc.Oss.Socket.{Socket}
use edbc.Client.Command.{
  Client, zeroed, query_command, delete_command, insert_command, snapshot_command, quit_command,
  connect_command,
}

abbrev pub cmd_buffer_size : ℕ
cmd_buffer_size = 512

abbrev pub space : ℕ
space = 32

abbrev pub tab : ℕ
tab = 9

abbrev pub back_slash : ℕ
back_slash = 92

abbrev pub new_line : ℕ
new_line = 10

-- The inner loop of split: how many characters stand before the delimiter.
unfoldable pub word_end : ℕ → Bytes → ℕ
word_end delim [] = 0
word_end delim (c ∷ text) = if c == delim then 0 else word_end delim text + 1

-- split; the fuel is the number of rounds of its outer loop.
unfoldable pub split : ℕ → ℕ → Bytes → List Bytes
split zero delim text = []
split (suc fuel) delim [] = []
split (suc fuel) delim (c ∷ text) =
    let end = word_end delim (c ∷ text) in
    take end (c ∷ text) ∷ split fuel delim (drop (end + 1) (c ∷ text))

-- The objects of the command factory, by what they do.
pub data CommandKind : Type 0 where
  connects helps quits inserts queries deletes snapshots : CommandKind

abbrev pub CommandMap : Type 0
CommandMap = List (Bytes × CommandKind)

-- getCommandProcessor
unfoldable pub get_command_processor : Bytes → CommandMap → Option CommandKind
get_command_processor type [] = none
get_command_processor type ((name, k) ∷ m) =
    if bytes_eq name type then some k else get_command_processor type m

-- addCommand: a name that is there keeps its object.
unfoldable pub add_command : Bytes → CommandKind → CommandMap → CommandMap
add_command name k m = elim (get_command_processor name m) [
  | none ↦ m ++ ((name, k) ∷ [])
  | some old ↦ m
]

abbrev pub connect_word : Bytes
connect_word = b'c' ∷ b'o' ∷ b'n' ∷ b'n' ∷ b'e' ∷ b'c' ∷ b't' ∷ []

abbrev pub help_word : Bytes
help_word = b'h' ∷ b'e' ∷ b'l' ∷ b'p' ∷ []

abbrev pub quit_word : Bytes
quit_word = b'q' ∷ b'u' ∷ b'i' ∷ b't' ∷ []

abbrev pub insert_word : Bytes
insert_word = b'i' ∷ b'n' ∷ b's' ∷ b'e' ∷ b'r' ∷ b't' ∷ []

abbrev pub query_word : Bytes
query_word = b'q' ∷ b'u' ∷ b'e' ∷ b'r' ∷ b'y' ∷ []

abbrev pub delete_word : Bytes
delete_word = b'd' ∷ b'e' ∷ b'l' ∷ b'e' ∷ b't' ∷ b'e' ∷ []

abbrev pub snapshot_word : Bytes
snapshot_word = b's' ∷ b'n' ∷ b'a' ∷ b'p' ∷ b's' ∷ b'h' ∷ b'o' ∷ b't' ∷ []

-- The constructor of Edb.
unfoldable pub command_map : CommandMap
command_map = add_command snapshot_word snapshots (
    add_command delete_word deletes (
      add_command query_word queries (
        add_command insert_word inserts (
          add_command quit_word quits
            (add_command help_word helps (add_command connect_word connects []))))))

-- Characters that getchar gives after the end of the input: -1 each.
unfoldable pub fill : ℕ → ℕ → Memory → Memory
fill zero cnt m = m
fill (suc n) cnt m = fill n (cnt + 1) (store8 m cnt 255)

-- The loop of readLine. A backslash ends the line, and is not stored.
unfoldable pub read_chars : Bytes → ℕ → ℕ → Memory → Memory × Bytes
read_chars [] cnt len m = (fill (len - cnt) cnt m, [])
read_chars (ch ∷ input) cnt len m =
    let rest = read_chars input (cnt + 1) len (store8 m cnt ch) in
    if ch == new_line
    then (m, input)
    else if not (ltb cnt len)
    then (m, input)
    else if ch == back_slash
    then (m, input)
    else rest

-- The end of readLine: a NUL as far behind cmdBuffer_ + off as the text in cmdBuffer_ is long.
unfoldable pub end_line : ℕ → Memory × Bytes → Outcome (Memory × Bytes)
end_line off (m, input) = elim (c_string cmd_buffer_size m 0) [
  | none ↦ fault
  | some text ↦
      if ltb (off + length text) cmd_buffer_size
      then returns (store8 m (off + length text) 0, input)
      else fault
]

-- readLine into cmdBuffer_ + off. The characters go to the start of cmdBuffer_, whatever `off` is.
unfoldable pub read_line : ℕ → ℕ → Memory → Bytes → Outcome (Memory × Bytes)
read_line off len m input = end_line off (read_chars input 0 len m)

-- The loop of readInput for more lines; `len` is not computed again in it.
unfoldable pub read_more : ℕ → ℕ → Memory → Bytes → Outcome (Memory × Bytes)
read_more zero len m input = starved
read_more (suc fuel) len m input =
    if len == 0 then fault else elim (m (len - 1) == back_slash && ltb 0 (cmd_buffer_size - len)) [
      | false ↦ returns (m, input)
      | true ↦ do
        (m', input') ← read_line len (cmd_buffer_size - len - 1) m input
        read_more fuel len m' input'
    ]

-- The last loop of readInput.
unfoldable pub spaced : ℕ → ℕ → Memory → Memory
spaced zero i m = m
spaced (suc n) i m = spaced n (i + 1) (if m i == tab then store8 m i space else m)

-- readInput behind its second strlen, and behind its first.
unfoldable pub without_tabs : Memory × Bytes → Outcome (Memory × Bytes)
without_tabs (m, input) = elim (c_string cmd_buffer_size m 0) [
  | none ↦ fault
  | some text ↦ returns (spaced (length text) 0 m, input)
]

unfoldable pub with_more : ℕ → Memory × Bytes → Outcome (Memory × Bytes)
with_more fuel (m, input) = elim (c_string cmd_buffer_size m 0) [
  | none ↦ fault
  | some text ↦ read_more fuel (length text) m input >>= without_tabs
]

unfoldable pub read_input : ℕ → Bytes → Outcome (Memory × Bytes)
read_input fuel input = read_line 0 (cmd_buffer_size - 1) zeroed input >>= with_more fuel

-- What the system calls of a connect answer: socket, connect, getsockname, getpeername.
pub record Network : Type 0 where
  pub made : Bool
  pub connected : Bool
  pub named : Bool
  pub peer_named : Bool

-- What a prompt leaves: the code and the printed record, if a command was run.
pub record Prompted (J : Type 0) : Type 0 where
  pub ran : Option (ℕ × Option J)
  pub sock : Socket
  pub input : Bytes

module _ (lib : JsonLib) (alloc : Allocator) (net : Network) (fuel : ℕ) (c : Client) where
  open lib use {Json}

  -- execute of the object; its buffers are `c`.
  unfoldable pub run_command :
      CommandKind → List Bytes → Socket → Outcome ((ℕ × Option Json) × Socket)
  run_command connects (address ∷ port ∷ args) sock =
      let (rc, s) = connect_command net.made net.connected net.named net.peer_named sock in
      returns ((rc, none), s)
  run_command connects args sock = fault
  run_command helps args sock = returns ((0, none), sock)
  run_command quits args sock = do (rc, c', s) ← quit_command c sock; returns ((rc, none), s)
  run_command inserts args sock = do
    (r, c', s) ← insert_command lib alloc fuel args c sock
    returns (r, s)
  run_command queries args sock = do
    (r, c', s) ← query_command lib alloc fuel args c sock
    returns (r, s)
  run_command deletes args sock = do
    (r, c', s) ← delete_command lib alloc fuel args c sock
    returns (r, s)
  run_command snapshots args sock = do
    (r, c', s) ← snapshot_command lib alloc fuel c sock
    returns (r, s)

  -- prompt behind split: the command's name is empty where there are no words.
  unfoldable pub dispatch : Bytes → List Bytes → Socket → Bytes → Outcome (Prompted Json)
  dispatch type opt_vec sock input = elim (get_command_processor type command_map) [
    | none ↦ returns (record { ran = none; sock = sock; input = input })
    | some k ↦ do
      (r, s) ← run_command k opt_vec sock
      returns (record { ran = some r; sock = s; input = input })
  ]

  unfoldable pub run_words : List Bytes → Socket → Bytes → Outcome (Prompted Json)
  run_words [] sock input = dispatch [] [] sock input
  run_words (type ∷ opt_vec) sock input = dispatch type opt_vec sock input

  unfoldable pub run_line : Socket → Memory × Bytes → Outcome (Prompted Json)
  run_line sock (m, input) = elim (c_string cmd_buffer_size m 0) [
    | none ↦ fault
    | some buffer ↦ run_words (split (suc (length buffer)) space buffer) sock input
  ]

  unfoldable pub prompt : Socket → Bytes → Outcome (Prompted Json)
  prompt sock input = read_input fuel input >>= run_line sock

  -- The loop of start, for so many rounds: exit_ is never set.
  unfoldable pub start : ℕ → Socket → Bytes → Outcome (Prompted Json)
  start zero sock input = starved
  start (suc rounds) sock input = do p ← prompt sock input; start rounds p.sock p.input
