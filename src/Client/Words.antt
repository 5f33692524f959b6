-- ===== src/Client/Words.antt =====
-- Edb::split (client/edb.cpp) against words that are joined.
use edbc.Base.{
  ℕ, zero, suc, ◌+◌, ◌-◌, ◌<◌, ◌≡◌, ◌≢◌, refl, sym, ap, ◌∙◌, List, [], ◌∷◌, ◌++◌, append-nil,
  append_assoc, length, length-append, drop, take-append_inside, take_all, drop-append_behind,
  arith,
}
use edbc.Base.Bytes.{Bytes}
use edbc.Client.Shell.{word_end, split}

-- No character is the delimiter.
abbrev pub Free : ℕ → Bytes → Type 0
Free delim [] = Unit {0}
Free delim (c ∷ w) = (c ≢ delim) × Free delim w

abbrev pub AllFree : ℕ → List Bytes → Type 0
AllFree delim [] = Unit {0}
AllFree delim (w ∷ ws) = Free delim w × AllFree delim ws

-- Each word with a delimiter behind it.
unfoldable pub terminated : ℕ → List Bytes → Bytes
terminated delim [] = []
terminated delim (w ∷ ws) = w ++ (delim ∷ terminated delim ws)

-- A last word that no delimiter ends is a word only if it has characters.
abbrev pub last_word : Bytes → List Bytes
last_word [] = []
last_word (c ∷ w) = (c ∷ w) ∷ []

pub word_end-terminated :
    (delim : ℕ) (w rest : Bytes) → Free delim w → word_end delim (w ++ (delim ∷ rest)) ≡ length w
unfolding word_end
word_end-terminated delim [] rest h = ground arith
word_end-terminated delim (c ∷ w) rest h = ground (arith, word_end-terminated delim w rest h.1)

pub word_end-all : (delim : ℕ) (w : Bytes) → Free delim w → word_end delim w ≡ length w
unfolding word_end
word_end-all delim [] h = refl
word_end-all delim (c ∷ w) h = ground (arith, word_end-all delim w h.1)

drop-nil : (n : ℕ) → drop {A = ℕ} n [] ≡ []
drop-nil zero = refl
drop-nil (suc n) = refl

split-empty : (fuel delim : ℕ) → split fuel delim [] ≡ []
unfolding split
split-empty zero delim = refl
split-empty (suc fuel) delim = refl

-- One round takes a word that a delimiter ends.
split-step :
    (fuel delim : ℕ) (w rest : Bytes)
    → Free delim w
    → split (suc fuel) delim (w ++ (delim ∷ rest)) ≡ w ∷ split fuel delim rest
unfolding split
split-step fuel delim [] rest h = rw (word_end-terminated delim [] rest h) refl
split-step fuel delim (c ∷ w) rest h =
    let n = length (c ∷ w) in
    let one : n + 1 - n ≡ 1 = omega arith in
    rw
      (
        word_end-terminated delim (c ∷ w) rest h,
        take-append_inside n (c ∷ w) (delim ∷ rest) (omega arith),
        take_all n (c ∷ w) (omega arith),
        drop-append_behind (n + 1) (c ∷ w) (delim ∷ rest) (omega arith),
        one,
      )
      refl

-- The last round takes what no delimiter ends.
split-last : (fuel delim : ℕ) (w : Bytes) → Free delim w → split (suc fuel) delim w ≡ last_word w
unfolding split
split-last fuel delim [] h = refl
split-last fuel delim (c ∷ w) h =
    let n = length (c ∷ w) in
    let none_left : drop (n + 1) (c ∷ w) ≡ [] =
      ap (drop (n + 1)) (sym (append-nil (c ∷ w)))
      ∙ drop-append_behind (n + 1) (c ∷ w) [] (omega arith)
      ∙ drop-nil (n + 1 - n) in
    rw
      (
        word_end-all delim (c ∷ w) h,
        take_all n (c ∷ w) (omega arith),
        none_left,
        split-empty fuel delim,
      )
      refl

-- Edb::split of words without the delimiter, of which each but the last is ended by one, with more
-- rounds than the line has characters: it gives the words, the empty ones included, but for an
-- empty last one.
pub split-words :
    (delim fuel : ℕ) (ws : List Bytes) (w : Bytes)
    → AllFree delim ws
    → Free delim w
    → length (terminated delim ws ++ w) < fuel
    → split fuel delim (terminated delim ws ++ w) ≡ ws ++ last_word w
unfolding terminated
split-words delim zero ws w hs h enough = absurd (omega arith)
split-words delim (suc fuel) [] w hs h enough = split-last fuel delim w h
split-words delim (suc fuel) (v ∷ ws) w hs h enough =
    let whole : terminated delim (v ∷ ws) ++ w ≡ v ++ (delim ∷ (terminated delim ws ++ w)) =
      append_assoc v (delim ∷ terminated delim ws) w in
    let less : length (terminated delim ws ++ w) < fuel =
      omega
        (arith, enough, ap length whole, length-append v (delim ∷ (terminated delim ws ++ w))) in
    ap (split (suc fuel) delim) whole
    ∙ split-step fuel delim v (terminated delim ws ++ w) hs.0
    ∙ ap (◌∷◌ v) (split-words delim fuel ws w hs.1 h less)
