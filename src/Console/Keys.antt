-- ===== src/Console/Keys.antt =====
-- `consoleintr` of console.c: a series of keys.
use p2b.Prelude.{
  ℕ, ◌+◌, ◌<◌, ◌≡◌, refl, ap, ◌∙◌, Bool, true, false, ◌||◌, some, List, [], ◌∷◌, arith, All, ◌==◌,
  if◌then◌else◌, Bool-cases, inl, inr,
}
use p2b.Console.{Console, input_buf, ctrl_h, ctrl_p, ctrl_u, rub_out, type_char, press, consoleintr}
use p2b.Console.Edit.{
  Typing, Refines, edit, without_last, at_start, past_start, rub_out-Refines, kill_line-Refines,
  type_char-Refines,
}

rub_key-Refines :
    {s : Console} (q line above : List ℕ)
    → Refines s (record { queue = q; line = line; above = above })
    → Refines
        (if s.e == s.w then s else rub_out s)
        (record { queue = q; line = without_last line; above = above })
unfolding without_last
rub_key-Refines q [] above h = rw (at_start h.holds) h
rub_key-Refines q (c ∷ line) above h = rw (past_start h.holds) (rub_out-Refines q c line above h)

pub press-Refines :
    (c : ℕ) {s : Console} (t : Typing)
    → c < 256
    → Refines s t
    → (s' : Console) × (press c s ≡ some s') × Refines s' (edit c t)
unfolding press edit
press-Refines c {s} t byte h = elim (Bool-cases (c == ctrl_p)) [
  | inl list ↦ (s, rw list, rw list h)
  | inr other ↦ elim (Bool-cases (c == ctrl_u)) [
    | inl kill ↦
        let (s', run, empty) =
          kill_line-Refines (input_buf + 1) t.queue t.line t.above (omega (arith, h.holds.room))
            h in
        (s', rw (other, kill) run, rw (other, kill) empty)
    | inr plain ↦ elim (Bool-cases (c == ctrl_h || c == 127)) [
      | inl rub ↦ (
        if s.e == s.w then s else rub_out s,
        rw (other, plain, rub),
        rw (other, plain, rub) (rub_key-Refines t.queue t.line t.above h),
      )
      | inr new ↦ (
        type_char c s,
        rw (other, plain, new),
        rw (other, plain, new) (type_char-Refines c t byte h),
      )
    ]
  ]
]

-- The keys in order.
unfoldable pub edits : List ℕ → Typing → Typing
unfolding edit
edits [] t = t
edits (c ∷ keys) t = edits keys (edit c t)

-- Is C('P') among them?
pub asks_listing : List ℕ → Bool
asks_listing [] = false
asks_listing (c ∷ keys) = c == ctrl_p || asks_listing keys

or_assoc : (a b c : Bool) → ((a || b) || c) ≡ (a || (b || c))
or_assoc true b c = refl
or_assoc false b c = refl

keys-Refines :
    (keys : List ℕ) (dump : Bool) {s : Console} (t : Typing)
    → All (λ c. c < 256) keys
    → Refines s t
    → (s' : Console) × (consoleintr keys dump s ≡ some (s', dump || asks_listing keys))
      × Refines s' (edits keys t)
unfolding consoleintr edits asks_listing
keys-Refines [] dump {s} t bytes h = (s, ground arith, h)
keys-Refines (c ∷ keys) dump {s} t bytes h =
    let (s1, one, mid) = press-Refines c t bytes.0 h in
    let (s', run, last) = keys-Refines keys (dump || c == ctrl_p) (edit c t) bytes.1 mid in
    let listed : ((dump || c == ctrl_p) || asks_listing keys) ≡ (dump || asks_listing (c ∷ keys)) =
      or_assoc dump (c == ctrl_p) (asks_listing keys) in
    (s', rw (one, consoleintr) (run ∙ ap (λ b. some (s', b)) listed), last)

-- Keys that are bytes do to the queue, the line and the screen just what `edits` says: `consoleintr` ends,
-- with C('U') taking the line away, C('H') and 0x7f its last character, and any other character but 0
-- going to the end of the line, as a newline for '\r', while there is room. A newline, ^D or a full buffer
-- moves the line to the queue. No byte is lost when the counters wrap, and what the screen shows of the
-- line is the line. `procdump` is called just if C('P') is among the keys.
pub consoleintr_lem :
    (keys : List ℕ) {s : Console} (t : Typing)
    → All (λ c. c < 256) keys
    → Refines s t
    → (s' : Console) × (consoleintr keys false s ≡ some (s', asks_listing keys))
      × Refines s' (edits keys t)
consoleintr_lem keys t bytes h = keys-Refines keys false t bytes h
