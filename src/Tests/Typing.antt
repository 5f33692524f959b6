-- ===== src/Tests/Typing.antt =====
-- Lines at the client's prompt.
use edbc.Base.{◌≡◌, refl, true, [], ◌∷◌, ◌++◌, arith}
use edbc.Base.Outcome.{◌>>=◌}
use edbc.Base.Bytes.{Bytes}
use edbc.Client.Command.{query_command}
use edbc.Client.Shell.{space, new_line, query_word, split, Network, prompt}
use edbc.Client.Words.{terminated, last_word, split-words}
use edbc.Client.Line.{untab}
use edbc.Client.Prompt.{prompted, prompt-queries}
use edbc.Tests.Fixtures.{numbers}
use edbc.Tests.Exchange.{generous, client_end, fresh_client}

-- `ab  c`: an empty word between the two.
split-words_example :
    split 9 32 (terminated 32 ((97 ∷ 98 ∷ []) ∷ [] ∷ []) ++ (99 ∷ []))
    ≡ ((97 ∷ 98 ∷ []) ∷ [] ∷ []) ++ last_word (99 ∷ [])
unfolding terminated
split-words_example =
    split-words 32 9 ((97 ∷ 98 ∷ []) ∷ [] ∷ []) (99 ∷ [])
      ((omega arith, (omega arith, tt)), (tt, tt)) (omega arith, tt) (omega arith)

abbrev network : Network
network = record { made = true; connected = true; named = true; peer_named = true }

-- `query`, a tab, the text of 2, a space, and a word that is lost.
abbrev typed : Bytes
typed = query_word ++ (9 ∷ 34 ∷ 49 ∷ 49 ∷ 32 ∷ 120 ∷ [])

typed-words : untab typed ≡ terminated space (query_word ∷ (34 ∷ 49 ∷ 49 ∷ []) ∷ []) ++ (120 ∷ [])
unfolding untab terminated
typed-words = refl

prompt-queries_example :
    prompt numbers generous network 1 fresh_client client_end (typed ++ (new_line ∷ 65 ∷ [])) ≡ (
      query_command numbers generous 1 ((34 ∷ 49 ∷ 49 ∷ []) ∷ []) fresh_client client_end
      >>= prompted numbers generous network 0 fresh_client (65 ∷ []))
prompt-queries_example =
    prompt-queries numbers generous network 0 fresh_client client_end typed (65 ∷ [])
      (query_word ∷ (34 ∷ 49 ∷ 49 ∷ []) ∷ []) (120 ∷ []) (34 ∷ 49 ∷ 49 ∷ []) ((120 ∷ []) ∷ [])
      (omega arith) (omega arith) (omega arith) (omega arith) typed-words (omega arith)
      (omega arith) refl
