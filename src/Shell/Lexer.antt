-- ===== src/Shell/Lexer.antt =====
-- The tokens of sh.c and the text that is left behind them.
use p2b.Prelude.{ℕ, ◌<◌, ◌≤◌, ◌≡◌, ◌≢◌, refl, Bool, true, List, [], ◌∷◌, arith, length}
use p2b.Shell.{skip_space, skip_word, nothing, token_at, gettoken, peek}

pub length-skip_space : (s : List ℕ) → length (skip_space s) ≤ length s
unfolding skip_space
length-skip_space [] = omega arith
length-skip_space (c ∷ s) = ground (arith, length-skip_space s)

length-skip_word : (s : List ℕ) → length (skip_word s) ≤ length s
unfolding skip_word
length-skip_word [] = omega arith
length-skip_word (c ∷ s) = ground (arith, length-skip_word s)

-- A token that is there has a character at least.
length-token_at : (c : ℕ) (s : List ℕ) → length (token_at (c ∷ s)).1 ≤ length s
unfolding token_at
length-token_at c [] = ground arith
length-token_at c (d ∷ s) = ground (arith, length-skip_word (d ∷ s))

-- What is left behind the token at the start of `u`, which comes from `s`.
shorter : (u : List ℕ) (n : ℕ) → length u ≤ n → u ≢ [] → length (skip_space (token_at u).1) < n
shorter [] n le some = absurd (some refl)
shorter (c ∷ u) n le some =
    omega (arith, length-token_at c u, length-skip_space (token_at (c ∷ u)).1)

peek-some : (toks : ℕ → Bool) (u : List ℕ) → peek toks u ≡ true → u ≢ []
unfolding peek
peek-some toks [] h e = cc
peek-some toks (c ∷ u) h e = cc

-- Behind a character that `peek` saw, less is left.
pub length-gettoken-peek :
    (toks : ℕ → Bool) (s : List ℕ)
    → peek toks (skip_space s) ≡ true
    → length (gettoken s).1 < length s
unfolding gettoken
length-gettoken-peek toks s h =
    shorter (skip_space s) (length s) (length-skip_space s) (peek-some toks (skip_space s) h)

-- So too behind a token.
token-some : (u : List ℕ) → (token_at u).0 ≢ nothing → u ≢ []
unfolding token_at
token-some [] h e = h refl
token-some (c ∷ u) h e = cc

pub length-gettoken-word :
    (s : List ℕ) → (gettoken s).0 ≢ nothing → length (gettoken s).1 < length s
unfolding gettoken
length-gettoken-word s h =
    shorter (skip_space s) (length s) (length-skip_space s) (token-some (skip_space s) h)

pub length-gettoken : (s : List ℕ) → length (gettoken s).1 ≤ length s
unfolding gettoken
length-gettoken s = behind (skip_space s) (length s) (length-skip_space s)
  where
    behind : (u : List ℕ) (n : ℕ) → length u ≤ n → length (skip_space (token_at u).1) ≤ n
    behind [] n le = omega (arith, length-skip_space (token_at []).1)
    behind (c ∷ u) n le = omega (arith, shorter (c ∷ u) n le (λ e. cc))
