-- ===== src/Grep/Language.antt =====
-- What the expressions of grep describe, for `match` in grep.c.
use p2b.Prelude.{
  ℕ, ◌≡◌, ◌↔◌, refl, sym, ap, ◌∙◌, inl, inr, Bool, true, false, not, List, [], ◌∷◌, ◌++◌, All,
  arith, ◌==◌, Bool-cases,
}
use mathlib.Core.Path.{subst}
use p2b.Grep.{
  caret, star, dollar, at_end, star_loop, admits, one_char, matchhere, search_from, match_re,
}

-- Does the first character of an expression stand for one character of the text?
abbrev pub is_plain : ℕ → List ℕ → Bool
is_plain c [] = not (c == dollar)
is_plain c (d ∷ re) = not (d == star)

abbrev pub Admitted : ℕ → List ℕ → Type 0
Admitted c run = All (λ t. admits c t ≡ true) run

-- The expression describes a first part of the text.
pub data Here : List ℕ → List ℕ → Type 0 where
  nothing : (text : List ℕ) → Here [] text
  stops : Here (dollar ∷ []) []
  one :
      (c t : ℕ) (re text : List ℕ)
      → is_plain c re ≡ true
      → admits c t ≡ true
      → Here re text
      → Here (c ∷ re) (t ∷ text)
  many :
      (c : ℕ) (re run tail text : List ℕ)
      → text ≡ run ++ tail
      → Admitted c run
      → Here re tail
      → Here (c ∷ star ∷ re) text

star_loop-true :
    (c : ℕ) (rest : List ℕ → Bool) (run tail : List ℕ)
    → Admitted c run
    → rest tail ≡ true
    → star_loop (admits c) rest (run ++ tail) ≡ true
star_loop-true c rest [] [] all e = e
star_loop-true c rest [] (t ∷ tail) all e = ground arith
star_loop-true c rest (t ∷ run) tail (a, all) e =
    let ih = star_loop-true c rest run tail all e in ground arith

star_loop-run :
    (c : ℕ) (rest : List ℕ → Bool) (text : List ℕ)
    → star_loop (admits c) rest text ≡ true
    → (run : List ℕ) × (tail : List ℕ) × (text ≡ run ++ tail) × Admitted c run × (rest tail ≡ true)
star_loop-run c rest [] e = ([], [], refl, tt, e)
star_loop-run c rest (t ∷ text) e = elim (Bool-cases (rest (t ∷ text))) [
  | inl now ↦ ([], t ∷ text, refl, tt, now)
  | inr later ↦
      let (run, tail, split, all, r) = star_loop-run c rest text (ground arith) in
      (t ∷ run, tail, ap (λ l. t ∷ l) split, (ground arith, all), r)
]

matchhere-plain :
    (c : ℕ) (re text : List ℕ)
    → is_plain c re ≡ true
    → matchhere (c ∷ re) text ≡ one_char c (matchhere re) text
unfolding matchhere
matchhere-plain c [] text p = ground arith
matchhere-plain c (d ∷ re) text p = ground arith

Here-matchhere : {re text : List ℕ} → Here re text → matchhere re text ≡ true
unfolding matchhere
Here-matchhere (nothing text) = refl
Here-matchhere stops = refl
Here-matchhere (one c t re text plain a h) =
    let ih = Here-matchhere h in matchhere-plain c re (t ∷ text) plain ∙ ground arith
Here-matchhere (many c re run tail text split all h) =
    subst (λ l. star_loop (admits c) (matchhere re) l ≡ true) (sym split)
      (star_loop-true c (matchhere re) run tail all (Here-matchhere h))

one_char-Here :
    (c : ℕ) (re text : List ℕ)
    → is_plain c re ≡ true
    → ((tail : List ℕ) → matchhere re tail ≡ true → Here re tail)
    → one_char c (matchhere re) text ≡ true
    → Here (c ∷ re) text
one_char-Here c re [] p ih e = absurd (ground arith)
one_char-Here c re (t ∷ text) p ih e = one c t re text p (ground arith) (ih text (ground arith))

matchhere-Here : (re text : List ℕ) → matchhere re text ≡ true → Here re text
unfolding matchhere
matchhere-Here [] text e = nothing text
matchhere-Here (c ∷ []) text e = elim (Bool-cases (c == dollar)) [
  | inl last ↦ last_Here text (ground arith) (ground arith)
  | inr plain ↦ one_char-Here c [] text (ground arith) (λ tail _. nothing tail) (ground arith)
]
  where
    last_Here : (l : List ℕ) → c ≡ dollar → at_end l ≡ true → Here (c ∷ []) l
    last_Here [] same end = subst (λ d. Here (d ∷ []) []) (sym same) stops
    last_Here (t ∷ l) same end = absurd (ground arith)
matchhere-Here (c ∷ d ∷ re) text e = elim (Bool-cases (d == star)) [
  | inl starred ↦
      let same : d ≡ star = ground arith in
      let (run, tail, split, all, r) = star_loop-run c (matchhere re) text (ground arith) in
      subst (λ s. Here (c ∷ s ∷ re) text) (sym same)
        (many c re run tail text split all (matchhere-Here re tail r))
  | inr plain ↦
      one_char-Here c (d ∷ re) text (ground arith) (λ tail h. matchhere-Here (d ∷ re) tail h)
        (ground arith)
]

-- Somewhere in the text the expression describes what follows.
abbrev pub Somewhere : List ℕ → List ℕ → Type 0
Somewhere re text = (before : List ℕ) × (after : List ℕ) × (text ≡ before ++ after) × Here re after

search_from-Somewhere : (re text : List ℕ) → search_from re text ≡ true → Somewhere re text
unfolding search_from
search_from-Somewhere re [] e = ([], [], refl, matchhere-Here re [] e)
search_from-Somewhere re (t ∷ text) e = elim (Bool-cases (matchhere re (t ∷ text))) [
  | inl now ↦ ([], t ∷ text, refl, matchhere-Here re (t ∷ text) now)
  | inr later ↦
      let (before, after, split, h) = search_from-Somewhere re text (ground arith) in
      (t ∷ before, after, ap (λ l. t ∷ l) split, h)
]

search_from-true :
    (re before after : List ℕ) → matchhere re after ≡ true → search_from re (before ++ after) ≡ true
unfolding search_from
search_from-true re [] [] e = e
search_from-true re [] (t ∷ after) e = ground arith
search_from-true re (t ∷ before) after e =
    let ih = search_from-true re before after e in ground arith

Somewhere-search_from : (re text : List ℕ) → Somewhere re text → search_from re text ≡ true
Somewhere-search_from re text (before, after, split, h) =
    subst (λ l. search_from re l ≡ true) (sym split)
      (search_from-true re before after (Here-matchhere h))

-- What an expression means of a whole text: one that begins with ^ describes the start of the text,
-- and any other describes some place in it.
pub data Found : List ℕ → List ℕ → Type 0 where
  at_start : (re text : List ℕ) → Here re text → Found (caret ∷ re) text
  empty_re : (text : List ℕ) → Somewhere [] text → Found [] text
  anywhere :
      (c : ℕ) (re text : List ℕ)
      → (c == caret) ≡ false
      → Somewhere (c ∷ re) text
      → Found (c ∷ re) text

Found-match : {re text : List ℕ} → Found re text → match_re re text ≡ true
unfolding match_re
Found-match (at_start re text h) = Here-matchhere h
Found-match (empty_re text s) = Somewhere-search_from [] text s
Found-match (anywhere c re text ne s) =
    let r = Somewhere-search_from (c ∷ re) text s in ground arith

-- `match` returns 1 exactly when the expression describes the text: a * stands for any run of the
-- characters before it, the longest or not, a final $ for the end, and a first ^ for the start.
pub match_re_iff : (re text : List ℕ) → (match_re re text ≡ true) ↔ Found re text
unfolding match_re
match_re_iff [] text = (λ e. empty_re text (search_from-Somewhere [] text e), λ f. Found-match f)
match_re_iff (c ∷ re) text = (
  λ e. elim (Bool-cases (c == caret)) [
    | inl first ↦
        let same : c ≡ caret = ground arith in
        subst (λ d. Found (d ∷ re) text) (sym same)
          (at_start re text (matchhere-Here re text (ground arith)))
    | inr ne ↦ anywhere c re text ne (search_from-Somewhere (c ∷ re) text (ground arith))
  ],
  λ f. Found-match f,
)
