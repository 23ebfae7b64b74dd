-- ===== src/Console/Edit.antt =====
-- What the keys of the console do, one by one, to the line that is being edited and to the screen.
use p2b.Prelude.{
  ℕ, zero, suc, ◌+◌, ◌%◌, ◌^◌, ◌<◌, ◌≤◌, ◌≡◌, inl, inr, ap, Bool, true, false, ◌&&◌, ◌||◌, not,
  some, List, [], ◌∷◌, ◌++◌, arith, length, ◌==◌, ltb, if◌then◌else◌, Bool-cases,
}
use mathlib.Core.List.{reverse}
use p2b.Console.{
  Console, input_buf, newline, ctrl_d, ctrl_h, ctrl_p, ctrl_u, backspace, rub_out, kill_line,
  store_char, enter_char, type_char, ends_line, no_return, has_room, before,
}
use p2b.Console.Line.{Holds, IsPlain, last_byte, rub_out-Holds, store_char-Holds, commit_line-Holds}

-- The text on the screen, the last character first: a step back takes one away.
unfoldable pub without_last : List ℕ → List ℕ
without_last [] = []
without_last (c ∷ l) = l

unfoldable pub visible : List ℕ → List ℕ
unfolding without_last
visible [] = []
visible (c ∷ l) = if c == backspace then without_last (visible l) else c ∷ visible l

-- The bytes to be read, the line being edited, and the text on the screen before it. A line and a text
-- have the last character first.
pub record Typing : Type 0 where
  pub queue : List ℕ
  pub line : List ℕ
  pub above : List ℕ

pub record Refines (s : Console) (t : Typing) : Type 0 where
  pub holds : Holds s t.queue t.line
  pub screen : visible s.shown ≡ t.line ++ t.above

pub at_start : {s : Console} {q : List ℕ} → Holds s q [] → (s.e == s.w) ≡ true
at_start h = ground (arith, h.edits, h.writes)

pub past_start :
    {s : Console} {q : List ℕ} {c : ℕ} {l : List ℕ} → Holds s q (c ∷ l) → (s.e == s.w) ≡ false
past_start h = ground (arith, h.edits, h.writes, h.room, h.reads)

pub rub_out-Refines :
    {s : Console} (q : List ℕ) (c : ℕ) (line above : List ℕ)
    → Refines s (record { queue = q; line = c ∷ line; above = above })
    → Refines (rub_out s) (record { queue = q; line = line; above = above })
unfolding rub_out visible
rub_out-Refines q c line above h = record {
  holds = rub_out-Holds q c line h.holds;
  screen = ap without_last h.screen;
}

-- The line is taken away character by character. That it has no newline makes the test for one idle.
pub kill_line-Refines :
    (fuel : ℕ) {s : Console} (q line above : List ℕ)
    → length line < fuel
    → Refines s (record { queue = q; line = line; above = above })
    → (s' : Console) × (kill_line fuel s ≡ some s')
      × Refines s' (record { queue = q; line = []; above = above })
unfolding kill_line
kill_line-Refines zero q line above enough h = absurd (omega arith)
kill_line-Refines (suc fuel) {s} q [] above enough h = (s, rw (at_start h.holds), h)
kill_line-Refines (suc fuel) {s} q (c ∷ line) above enough h =
    let (s', run, rest) =
      kill_line-Refines fuel q line above (omega arith) (rub_out-Refines q c line above h) in
    let other : (s.buf (before s.e % input_buf) == newline) ≡ false =
      rw (last_byte q c line h.holds) (ground (arith, h.holds.plain.0.0)) in
    (s', rw (past_start h.holds, other) run, rest)

-- A character at the end of the line, which ends the line if it is a newline or ^D or fills the buffer.
pub typed : ℕ → Typing → Typing
typed c t =
    if c == newline || c == ctrl_d || length t.queue + length (c ∷ t.line) == input_buf
    then record {
      queue = t.queue ++ reverse (c ∷ t.line);
      line = [];
      above = (c ∷ t.line) ++ t.above;
    }
    else record t { line = c ∷ t.line }

has_room-Holds :
    {s : Console} {q line : List ℕ}
    → Holds s q line
    → has_room s ≡ ltb (length q + length line) input_buf
has_room-Holds h = ground (arith, h.edits, h.reads, h.room)

-- The test for the end of the line, on the state that has the character already.
ends_line-Holds :
    {s : Console} (q : List ℕ) (c : ℕ) (line : List ℕ)
    → Holds s q line
    → length q + length line < input_buf
    → ends_line c (store_char c s)
      ≡ (c == newline || c == ctrl_d || length q + length (c ∷ line) == input_buf)
unfolding store_char
ends_line-Holds {s} q c line h below =
    let e : ((s.e + 1) % 2 ^ 32 == (s.r + input_buf) % 2 ^ 32)
        ≡ (length q + length (c ∷ line) == input_buf) =
      ground (arith, h.edits, h.reads, h.room) in
    ap (λ b. c == newline || c == ctrl_d || b) e

open_test :
    (c total : ℕ) (line : List ℕ)
    → (c == newline || c == ctrl_d || total == input_buf) ≡ false
    → total ≤ input_buf
    → IsPlain c × (total < input_buf)
open_test c total line more bound = (((λ e. ground arith), (λ e. ground arith)), ground arith)

enter_char-Refines :
    (c : ℕ) {s : Console} (t : Typing)
    → c < 256
    → length t.queue + length t.line < input_buf
    → Refines s t
    → Refines (enter_char c s) (typed c t)
unfolding enter_char typed visible
enter_char-Refines c {s} t byte below h =
    let other : (c == backspace) ≡ false = ground arith in
    let shows : visible (c ∷ s.shown) ≡ c ∷ (t.line ++ t.above) =
      rw other (ap (λ l. c ∷ l) h.screen) in
    let ends = ends_line-Holds t.queue c t.line h.holds below in
    elim (Bool-cases
      (c == newline || c == ctrl_d || length t.queue + length (c ∷ t.line) == input_buf)) [
        | inl last ↦
            rw (ends, last)
              (record { holds = commit_line-Holds t.queue c t.line h.holds below; screen = shows })
        | inr more ↦
            let (new, room) =
              open_test c (length t.queue + length (c ∷ t.line)) t.line more (omega arith) in
            rw (ends, more)
              (record {
                holds = store_char-Holds t.queue c t.line h.holds new room;
                screen = shows;
              })
      ]

-- The default case of the switch.
pub insert_key : ℕ → Typing → Typing
unfolding typed
insert_key c t =
    if not (c == 0) && ltb (length t.queue + length t.line) input_buf
    then typed (if c == 13 then newline else c) t
    else t

-- The three cases of the character: none, with no room, and one that goes in.
type_char-none :
    (c : ℕ) (s : Console) (b : Bool)
    → has_room s ≡ b
    → (not (c == 0) && b) ≡ false
    → type_char c s ≡ s
unfolding type_char
type_char-none c s b e f = rw (e, f)

type_char-some :
    (c : ℕ) (s : Console) (b : Bool)
    → has_room s ≡ b
    → (not (c == 0) && b) ≡ true
    → type_char c s ≡ enter_char (no_return c) s
unfolding type_char
type_char-some c s b e f = rw (e, f)

pub type_char-Refines :
    (c : ℕ) {s : Console} (t : Typing)
    → c < 256
    → Refines s t
    → Refines (type_char c s) (insert_key c t)
unfolding insert_key
type_char-Refines c {s} t byte h =
    let room = has_room-Holds h.holds in
    elim (Bool-cases (not (c == 0) && ltb (length t.queue + length t.line) input_buf)) [
      | inl go ↦
          rw (type_char-some c s _ room go, insert_key, go)
            (enter_char-Refines (no_return c) t (ground arith) (ground arith) h)
      | inr stay ↦ rw (type_char-none c s _ room stay, insert_key, stay) h
    ]

-- What a key does.
unfoldable pub edit : ℕ → Typing → Typing
unfolding insert_key without_last
edit c t =
    if c == ctrl_p
    then t
    else if c == ctrl_u
    then record t { line = [] }
    else if c == ctrl_h || c == 127
    then record t { line = without_last t.line }
    else insert_key c t
