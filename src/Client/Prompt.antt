-- ===== src/Client/Prompt.antt =====
-- A query that is typed at the prompt (client/edb.cpp, client/commandFactory.cpp).
use edbc.Base.{ℕ, suc, ◌<◌, ◌≡◌, refl, ap, ◌∙◌, Option, some, List, [], ◌∷◌, ◌++◌, length, arith}
use edbc.Base.Outcome.{Outcome, returns, throws, blocked, fault, starved, ◌>>=◌}
use edbc.Base.Bytes.{Bytes, IsText, bytes_eq}
use edbc.Base.Json.{JsonLib}
use edbc.Msg.Buffer.{Allocator}
use edbc.Oss.Socket.{Socket}
use edbc.Client.Command.{Client, execute, query_command}
use edbc.Client.Shell.{
  cmd_buffer_size, space, new_line, query_word, queries, get_command_processor, add_command,
  command_map, Network, Prompted, run_command, dispatch, run_words, run_line, prompt,
}
use edbc.Client.Words.{AllFree, Free, terminated, last_word, split-words}
use edbc.Client.Line.{IsLine, untab, read_input-line}

query_found : get_command_processor query_word command_map ≡ some queries
unfolding get_command_processor command_map add_command bytes_eq
query_found = refl

module _ (lib : JsonLib) (alloc : Allocator) (net : Network) (fuel : ℕ) (c : Client) where
  open lib use {Json}

  -- What a command leaves of the prompt.
  abbrev pub prompted : Bytes → (ℕ × Option Json) × Client × Socket → Outcome (Prompted Json)
  prompted input (r, c', s) = returns (record { ran = some r; sock = s; input = input })

  abbrev without_buffers :
      (ℕ × Option Json) × Client × Socket → Outcome ((ℕ × Option Json) × Socket)
  without_buffers (r, c', s) = returns (r, s)

  abbrev left : Bytes → (ℕ × Option Json) × Socket → Outcome (Prompted Json)
  left input (r, s) = returns (record { ran = some r; sock = s; input = input })

  flatten :
      (m : Outcome ((ℕ × Option Json) × Client × Socket)) (input : Bytes)
      → ((m >>= without_buffers) >>= left input) ≡ (m >>= prompted input)
  flatten (returns (r, c', s)) input = refl
  flatten throws input = refl
  flatten blocked input = refl
  flatten fault input = refl
  flatten starved input = refl

  -- The query command takes its first word only.
  query-runs :
      (json_str : Bytes) (more : List Bytes) (sock : Socket) (input : Bytes)
      → run_words lib alloc net (suc fuel) c (query_word ∷ json_str ∷ more) sock input
        ≡ (query_command lib alloc (suc fuel) (json_str ∷ []) c sock >>= prompted input)
  unfolding run_words dispatch run_command execute
  query-runs json_str more sock input =
      rw (dispatch, query_found, run_command)
        (flatten (query_command lib alloc (suc fuel) (json_str ∷ []) c sock) input)

  prompt-words :
      (sock : Socket) (w input : Bytes) (ws : List Bytes) (v : Bytes)
      → 0 < length w
      → length w < cmd_buffer_size
      → IsText w
      → IsLine w
      → untab w ≡ terminated space ws ++ v
      → AllFree space ws
      → Free space v
      → prompt lib alloc net (suc fuel) c sock (w ++ (new_line ∷ input))
        ≡ run_words lib alloc net (suc fuel) c (ws ++ last_word v) sock input
  unfolding prompt run_line
  prompt-words sock w input ws v some_text short t h cut free free_last =
      let (m, run, read) = read_input-line fuel w input some_text short t h in
      let words =
        split-words space (suc (length (terminated space ws ++ v))) ws v free free_last
          (omega arith) in
      rw (run, run_line, read, cut, words) refl

  -- A prompt on a line that readLine does not stop in and that fits the buffer, whose words, at
  -- spaces or tabs, are `query`, a second word, and more or none: it is the query command with the
  -- second word alone, on the rest of the input; the words behind it are not looked at.
  pub prompt-queries :
      (sock : Socket) (w input : Bytes) (ws : List Bytes) (v json_str : Bytes) (more : List Bytes)
      → 0 < length w
      → length w < cmd_buffer_size
      → IsText w
      → IsLine w
      → untab w ≡ terminated space ws ++ v
      → AllFree space ws
      → Free space v
      → ws ++ last_word v ≡ query_word ∷ json_str ∷ more
      → prompt lib alloc net (suc fuel) c sock (w ++ (new_line ∷ input))
        ≡ (query_command lib alloc (suc fuel) (json_str ∷ []) c sock >>= prompted input)
  prompt-queries sock w input ws v json_str more some_text short t h cut free free_last words =
      prompt-words sock w input ws v some_text short t h cut free free_last
      ∙ ap (λ x. run_words lib alloc net (suc fuel) c x sock input) words
      ∙ query-runs json_str more sock input
