-- ===== src/Client/Line.antt =====
-- Edb::readInput and Edb::prompt (client/edb.cpp) on a line of the input.
use edbc.Base.{
  ℕ, zero, suc, ◌+◌, ◌-◌, ◌≤◌, ◌<◌, ◌≡◌, ◌≢◌, refl, ap, ◌∙◌, ◌⊎◌, true, false, some, [], ◌∷◌, ◌++◌,
  length, ltb, ◌==◌, if◌then◌else◌, lt→ltb, arith,
}
use edbc.Base.Outcome.{returns}
use edbc.Base.Bytes.{Bytes, IsText}
use edbc.Base.Memory.{
  Memory, store8, store_bytes, HoldsAt, HoldsAt-agree, store_bytes-HoldsAt, store_bytes-outside,
  c_string, c_string-text,
}
use edbc.Client.Command.{zeroed}
use edbc.Client.Shell.{
  cmd_buffer_size, space, tab, back_slash, new_line, read_chars, end_line, read_line, read_more,
  spaced, read_input, with_more, without_tabs,
}

-- Characters that readLine does not stop at.
abbrev pub IsLine : Bytes → Type 0
IsLine [] = Unit {0}
IsLine (c ∷ w) = (c ≢ new_line) × (c ≢ back_slash) × IsLine w

-- The line with a space for every tab.
unfoldable pub untab : Bytes → Bytes
untab [] = []
untab (c ∷ w) = (if c == tab then space else c) ∷ untab w

read_chars-line :
    (w rest : Bytes) (cnt len : ℕ) (m : Memory)
    → IsLine w
    → cnt + length w ≤ len
    → read_chars (w ++ (new_line ∷ rest)) cnt len m ≡ (store_bytes m cnt w, rest)
unfolding read_chars store_bytes
read_chars-line [] rest cnt len m h room = refl
read_chars-line (c ∷ w) rest cnt len m h room =
    let ih = read_chars-line w rest (cnt + 1) len (store8 m cnt c) h.2 (omega arith) in
    let a : (c == new_line) ≡ false = ground (arith, h.0) in
    let b : ltb cnt len ≡ true = ground arith in
    let d : (c == back_slash) ≡ false = ground (arith, h.1) in rw (a, b, d) ih

-- A text and its NUL.
record Holds (m : Memory) (w : Bytes) : Type 0 where
  text : HoldsAt m 0 w
  nul : m (0 + length w) ≡ 0

string_read :
    (m : Memory) (w : Bytes)
    → IsText w
    → length w < cmd_buffer_size
    → Holds m w
    → c_string cmd_buffer_size m 0 ≡ some w
string_read m w t short h = c_string-text cmd_buffer_size m 0 w t h.text h.nul short

read_line-line :
    (w rest : Bytes)
    → IsText w
    → IsLine w
    → length w < cmd_buffer_size
    → (m : Memory) × (read_line 0 (cmd_buffer_size - 1) zeroed (w ++ (new_line ∷ rest))
        ≡ returns (m, rest))
      × Holds m w
unfolding read_line end_line store8
read_line-line w rest t h short =
    let m = store_bytes zeroed 0 w in
    let held : Holds m w = record {
      text = store_bytes-HoldsAt zeroed 0 w;
      nul = store_bytes-outside zeroed 0 w (0 + length w) (omega arith);
    } in
    (
      store8 m (0 + length w) 0,
      ap (end_line 0)
            (read_chars-line w rest 0 (cmd_buffer_size - 1) zeroed h (omega (arith, short)))
          ∙ rw
              (
                end_line,
                string_read m w t short held,
                lt→ltb (0 + length w) cmd_buffer_size (omega (arith, short)),
              )
              refl,
      record {
        text = HoldsAt-agree m _ 0 w (λ i lo hi. ground arith) held.text;
        nul = ground arith;
      },
    )

-- A character of the text is none that readLine stops at.
inside_line :
    (w : Bytes) (m : Memory) (a i : ℕ)
    → IsLine w
    → HoldsAt m a w
    → i < length w
    → (m (a + i) == back_slash) ≡ false
inside_line [] m a i h t low = absurd (omega arith)
inside_line (c ∷ w) m a zero h t low = ground (arith, h.1, t.0)
inside_line (c ∷ w) m a (suc i) h t low =
    ap (λ (k : ℕ). m k == back_slash) (omega arith)
    ∙ inside_line w m (a + 1) i h.2 t.1 (omega arith)

-- No more lines are read.
read_more-none :
    (fuel : ℕ) (w rest : Bytes) (m : Memory)
    → 0 < length w
    → IsLine w
    → HoldsAt m 0 w
    → read_more (suc fuel) (length w) m rest ≡ returns (m, rest)
unfolding read_more
read_more-none fuel w rest m some_text h t =
    let plain : (m (length w - 1) == back_slash) ≡ false =
      ap (λ (k : ℕ). m k == back_slash) (omega arith)
      ∙ inside_line w m 0 (length w - 1) h t (omega arith) in
    let there : (length w == 0) ≡ false = ground arith in rw (there, plain) refl

spaced-outside : (n i j : ℕ) (m : Memory) → (j < i) ⊎ (i + n ≤ j) → spaced n i m j ≡ m j
unfolding spaced store8
spaced-outside zero i j m h = refl
spaced-outside (suc n) i j m h =
    spaced-outside n (i + 1) j (if m i == tab then store8 m i space else m) (omega arith)
    ∙ ground arith

spaced-HoldsAt :
    (w : Bytes) (i : ℕ) (m : Memory) → HoldsAt m i w → HoldsAt (spaced (length w) i m) i (untab w)
unfolding spaced store8 untab
spaced-HoldsAt [] i m t = tt
spaced-HoldsAt (c ∷ w) i m t =
    let m' : Memory = if m i == tab then store8 m i space else m in
    (
      spaced-outside (length w) (i + 1) i m' (omega arith) ∙ ground (arith, t.0),
      spaced-HoldsAt w (i + 1) m' (HoldsAt-agree m m' (i + 1) w (λ k lo hi. ground arith) t.1),
    )

pub length-untab : (w : Bytes) → length (untab w) ≡ length w
unfolding untab
length-untab [] = refl
length-untab (c ∷ w) = ap suc (length-untab w)

untab-IsText : (w : Bytes) → IsText w → IsText (untab w)
unfolding untab
untab-IsText [] t = tt
untab-IsText (c ∷ w) t = (ground (arith, t.0), ground (arith, t.1), untab-IsText w t.2)

-- readInput of a line that has characters, fits the buffer, and has no backslash: it reads the line
-- and its end, and what stands in the buffer is the line with a space for every tab.
pub read_input-line :
    (fuel : ℕ) (w rest : Bytes)
    → 0 < length w
    → length w < cmd_buffer_size
    → IsText w
    → IsLine w
    → (m : Memory) × (read_input (suc fuel) (w ++ (new_line ∷ rest)) ≡ returns (m, rest))
      × (c_string cmd_buffer_size m 0 ≡ some (untab w))
unfolding read_input with_more without_tabs
read_input-line fuel w rest some_text short t h =
    let (m, run, held) = read_line-line w rest t h short in
    let again = read_more-none fuel w rest m some_text h held.text in
    let read = string_read m w t short held in
    let last : Holds (spaced (length w) 0 m) (untab w) = record {
      text = spaced-HoldsAt w 0 m held.text;
      nul =
          ap (λ (k : ℕ). spaced (length w) 0 m (0 + k)) (length-untab w)
          ∙ spaced-outside (length w) 0 (0 + length w) m (omega arith)
          ∙ held.nul;
    } in
    (
      spaced (length w) 0 m,
      rw (run, with_more, read, again, without_tabs, read) refl,
      string_read _ (untab w) (untab-IsText w t) (rw (length-untab w) short) last,
    )
