-- ===== src/Console/Line.antt =====
-- The console's input as a queue of bytes to read and a line that is being edited.
use p2b.Prelude.{
  ℕ, suc, ◌+◌, ◌%◌, ◌^◌, ◌<◌, ◌≤◌, ◌≡◌, ◌≢◌, ◌⊎◌, inl, inr, refl, ap, sym, ◌∙◌, List, [], ◌∷◌, ◌++◌,
  arith, update, length, length-append, length-reverse, window, window-suc, window-update, All,
}
use mathlib.Core.Path.{ap₂, subst}
use mathlib.Core.List.{reverse, reverse-cons, append_assoc, append-nil}
use p2b.Console.{
  Console, input_buf, newline, ctrl_d, rub_out, store_char, commit_line, next_char, drop_char,
  fresh, before,
}

abbrev pub place : ℕ → ℕ
place i = i % input_buf

abbrev pub IsPlain : ℕ → Type 0
IsPlain c = (c ≢ newline) × (c ≢ ctrl_d)

-- `q` is to be read, and `line`, its last character first, is being edited. The counters may wrap.
pub record Holds (s : Console) (q line : List ℕ) : Type 0 where
  pub reads : s.r < 2 ^ 32
  pub writes : s.w ≡ (s.r + length q) % 2 ^ 32
  pub edits : s.e ≡ (s.r + (length q + length line)) % 2 ^ 32
  pub room : length q + length line ≤ input_buf
  pub bytes : window place s.buf s.r (length q + length line) ≡ q ++ reverse line
  pub plain : All IsPlain line
  -- A line that fills the buffer is never left open.
  pub open_line : (length line ≡ 0) ⊎ (length q + length line < input_buf)

pub fresh-Holds : Holds fresh [] []
fresh-Holds = record {
  reads = omega arith;
  writes = refl;
  edits = refl;
  room = omega arith;
  bytes = refl;
  plain = tt;
  open_line = inl refl;
}

append_last : (l m : List ℕ) (c d : ℕ) → l ++ c ∷ [] ≡ m ++ d ∷ [] → (l ≡ m) × (c ≡ d)
append_last [] [] c d e = (refl, cc e)
append_last [] (y ∷ []) c d e = absurd (cc e)
append_last [] (y ∷ z ∷ m) c d e = absurd (cc e)
append_last (x ∷ []) [] c d e = absurd (cc e)
append_last (x ∷ z ∷ l) [] c d e = absurd (cc e)
append_last (x ∷ l) (y ∷ m) c d e =
    let (same, last) = append_last l m c d (cc e) in (ap₂ ◌∷◌ (cc e) same, last)

line_end :
    (q : List ℕ) (c : ℕ) (line : List ℕ) → q ++ reverse (c ∷ line) ≡ (q ++ reverse line) ++ c ∷ []
line_end q c line =
    ap (λ l. q ++ l) (reverse-cons c line) ∙ sym (append_assoc q (reverse line) (c ∷ []))

-- The last character of the line, and the bytes before it.
last_bytes :
    {s : Console} (q : List ℕ) (c : ℕ) (line : List ℕ)
    → Holds s q (c ∷ line)
    → (window place s.buf s.r (length q + length line) ≡ q ++ reverse line)
      × (s.buf (place ((s.r + (length q + length line)) % 2 ^ 32)) ≡ c)
last_bytes {s} q c line h =
    append_last (window place s.buf s.r (length q + length line)) (q ++ reverse line)
      (s.buf (place ((s.r + (length q + length line)) % 2 ^ 32))) c
      (sym (window-suc place s.buf s.r (length q + length line) h.reads)
        ∙ subst (λ n. window place s.buf s.r n ≡ q ++ reverse (c ∷ line))
            {y = suc (length q + length line)} (omega arith) h.bytes
        ∙ line_end q c line)

pub last_byte :
    {s : Console} (q : List ℕ) (c : ℕ) (line : List ℕ)
    → Holds s q (c ∷ line)
    → s.buf (place (before s.e)) ≡ c
last_byte {s} q c line h =
    ap (λ i. s.buf (place i)) (omega (arith, h.edits, h.reads, h.room)) ∙ (last_bytes q c line h).1

-- Leaving out the last character of the line.
pub rub_out-Holds :
    {s : Console} (q : List ℕ) (c : ℕ) (line : List ℕ)
    → Holds s q (c ∷ line)
    → Holds (rub_out s) q line
unfolding rub_out
rub_out-Holds q c line h = record {
  reads = h.reads;
  writes = h.writes;
  edits = omega (arith, h.edits, h.room, h.reads);
  room = omega (arith, h.room);
  bytes = (last_bytes q c line h).0;
  plain = h.plain.1;
  open_line = inr (omega (arith, h.room));
}

apart : (r n m : ℕ) → n < input_buf → m < n → place ((r + n) % 2 ^ 32) ≢ place ((r + m) % 2 ^ 32)
apart r n m below lt = omega arith

-- A character at the end of the line, which may end the line then.
pub store_char-bytes :
    {s : Console} (q : List ℕ) (c : ℕ) (line : List ℕ)
    → Holds s q line
    → length q + length line < input_buf
    → window place (store_char c s).buf s.r (length q + length (c ∷ line)) ≡ q ++ reverse (c ∷ line)
unfolding store_char
store_char-bytes {s} q c line h below =
    subst (λ n. window place (update s.buf (place s.e) c) s.r n ≡ q ++ reverse (c ∷ line))
      {x = suc (length q + length line)} (omega arith)
      (window-update place s.buf s.r (length q + length line) s.e c h.reads h.edits (λ m lt.
          subst (λ e. place e ≢ place ((s.r + m) % 2 ^ 32)) (sym h.edits)
            (apart s.r (length q + length line) m below lt))
        ∙ ap (λ l. l ++ c ∷ []) h.bytes
        ∙ sym (line_end q c line))

-- The line stays open, or its bytes are to be read.
pub store_char-Holds :
    {s : Console} (q : List ℕ) (c : ℕ) (line : List ℕ)
    → Holds s q line
    → IsPlain c
    → length q + length (c ∷ line) < input_buf
    → Holds (store_char c s) q (c ∷ line)
unfolding store_char
store_char-Holds {s} q c line h new below = record {
  reads = h.reads;
  writes = h.writes;
  edits = omega (arith, h.edits);
  room = omega arith;
  bytes = store_char-bytes q c line h (omega arith);
  plain = (new, h.plain);
  open_line = inr below;
}

pub commit_line-Holds :
    {s : Console} (q : List ℕ) (c : ℕ) (line : List ℕ)
    → Holds s q line
    → length q + length line < input_buf
    → Holds (commit_line (store_char c s)) (q ++ reverse (c ∷ line)) []
unfolding store_char commit_line
commit_line-Holds {s} q c line h below =
    let e : length (q ++ reverse (c ∷ line)) ≡ length q + length line + 1 =
      length-append q (reverse (c ∷ line)) ∙ omega (arith, length-reverse (c ∷ line)) in
    record {
      reads = h.reads;
      writes = omega (arith, h.edits, e);
      edits = omega (arith, h.edits, e);
      room = omega (arith, e);
      bytes =
          subst
            (λ n. window place (update s.buf (place s.e) c) s.r n ≡ (q ++ reverse (c ∷ line)) ++ [])
            {x = length q + length (c ∷ line)} (omega (arith, e))
            (store_char-bytes q c line h below ∙ sym (append-nil (q ++ reverse (c ∷ line))));
      plain = tt;
      open_line = inl refl;
    }

pub drop_char-Holds :
    {s : Console} (c : ℕ) (q line : List ℕ)
    → Holds s (c ∷ q) line
    → (next_char s ≡ c) × Holds (drop_char s) q line
unfolding next_char drop_char
drop_char-Holds {s} c q line h =
    let bytes : window place s.buf s.r (suc (length q + length line)) ≡ c ∷ (q ++ reverse line) =
      subst (λ n. window place s.buf s.r n ≡ c ∷ (q ++ reverse line))
        {y = suc (length q + length line)} (omega arith) h.bytes in
    (
      cc bytes,
      record {
        reads = omega arith;
        writes = omega (arith, h.writes);
        edits = omega (arith, h.edits);
        bytes = cc bytes;
        room = omega (arith, h.room);
        plain = h.plain;
        open_line = ground (arith, h.open_line);
      },
    )
