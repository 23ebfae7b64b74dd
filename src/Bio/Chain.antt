-- ===== src/Bio/Chain.antt =====
-- Chains of buffers, linked both ways, of bio.c.
use p2b.Prelude.{ℕ, ◌≡◌, ◌≢◌, refl, sym, List, [], ◌∷◌, ◌++◌, arith, update}
use mathlib.Core.Path.{subst}
use mathlib.Core.List.{append-nil}
use p2b.Kalloc.Free.{NotIn}

-- From `p` on, the links go through `vs` and on to `q`, and back.
abbrev pub Chain : (next prev : ℕ → ℕ) (p : ℕ) (vs : List ℕ) (q : ℕ) → Type 0
Chain next prev p [] q = (next p ≡ q) × (prev q ≡ p)
Chain next prev p (v ∷ vs) q = (next p ≡ v) × (prev v ≡ p) × Chain next prev v vs q

-- All different.
abbrev pub Distinct : List ℕ → Type 0
Distinct [] = Unit
Distinct (v ∷ vs) = NotIn v vs × Distinct vs

-- The last of a list, or `p`.
abbrev pub last_of : (p : ℕ) → List ℕ → ℕ
last_of p [] = p
last_of p (v ∷ vs) = last_of v vs

abbrev pub first_of : List ℕ → (q : ℕ) → ℕ
first_of [] q = q
first_of (v ∷ vs) q = v

module _ (next prev : ℕ → ℕ) where
  pub Chain-first : (p : ℕ) (vs : List ℕ) (q : ℕ) → Chain next prev p vs q → next p ≡ first_of vs q
  Chain-first p [] q c = c.0
  Chain-first p (v ∷ vs) q c = c.0

  pub Chain-last : (p : ℕ) (vs : List ℕ) (q : ℕ) → Chain next prev p vs q → prev q ≡ last_of p vs
  Chain-last p [] q c = c.1
  Chain-last p (v ∷ vs) q c = Chain-last v vs q c.2

  pub Chain-split :
      (p : ℕ) (vs : List ℕ) (b : ℕ) (ws : List ℕ) (q : ℕ)
      → Chain next prev p (vs ++ b ∷ ws) q
      → Chain next prev p vs b × Chain next prev b ws q
  Chain-split p [] b ws q c = ((c.0, c.1), c.2)
  Chain-split p (v ∷ vs) b ws q c = let (l, r) = Chain-split v vs b ws q c.2 in ((c.0, c.1, l), r)

-- A link from outside the chain can change, and so can one back from outside it.
pub Chain-next :
    (next prev : ℕ → ℕ) (x y p : ℕ) (vs : List ℕ) (q : ℕ)
    → x ≢ p
    → NotIn x vs
    → Chain next prev p vs q
    → Chain (update next x y) prev p vs q
Chain-next next prev x y p [] q ne out c = (ground arith, c.1)
Chain-next next prev x y p (v ∷ vs) q ne out c =
    (ground arith, c.1, Chain-next next prev x y v vs q (λ e. out.0 (sym e)) out.1 c.2)

pub Chain-prev :
    (next prev : ℕ → ℕ) (x y p : ℕ) (vs : List ℕ) (q : ℕ)
    → x ≢ q
    → NotIn x vs
    → Chain next prev p vs q
    → Chain next (update prev x y) p vs q
Chain-prev next prev x y p [] q ne out c = (c.0, ground arith)
Chain-prev next prev x y p (v ∷ vs) q ne out c =
    let other : x ≢ v = λ e. out.0 (sym e) in
    (c.0, ground arith, Chain-prev next prev x y v vs q ne out.1 c.2)

pub NotIn-append : (x : ℕ) (vs ws : List ℕ) → NotIn x (vs ++ ws) → NotIn x vs × NotIn x ws
NotIn-append x [] ws out = (tt, out)
NotIn-append x (v ∷ vs) ws out = let (l, r) = NotIn-append x vs ws out.1 in ((out.0, l), r)

last_of-other : (x p : ℕ) (vs : List ℕ) → x ≢ p → NotIn x vs → x ≢ last_of p vs
last_of-other x p [] ne out = ne
last_of-other x p (v ∷ vs) ne out = last_of-other x v vs (λ e. out.0 (sym e)) out.1

pub first_of-other : (x : ℕ) (vs : List ℕ) (q : ℕ) → x ≢ q → NotIn x vs → x ≢ first_of vs q
first_of-other x [] q ne out = ne
first_of-other x (v ∷ vs) q ne out = λ e. out.0 (sym e)

-- A chain to `b` becomes one to `t`.
pub Chain-relink :
    (next prev : ℕ → ℕ) (p : ℕ) (vs : List ℕ) (b t : ℕ)
    → NotIn p vs
    → Distinct vs
    → NotIn t vs
    → Chain next prev p vs b
    → Chain (update next (last_of p vs) t) (update prev t (last_of p vs)) p vs t
Chain-relink next prev p [] b t out d ot c = (ground arith, ground arith)
Chain-relink next prev p (v ∷ vs) b t out d ot c =
    let ne : last_of v vs ≢ p = λ e. last_of-other p v vs (λ q. out.0 (sym q)) out.1 (sym e) in
    (
      ground (arith, c.0),
      ground (arith, c.1, ot.0),
      Chain-relink next prev v vs b t d.0 d.1 ot.1 c.2,
    )

module _ (x : ℕ) where
  pub NotIn-middle :
      (vs : List ℕ) (b : ℕ) (ws : List ℕ) → NotIn x (vs ++ b ∷ ws) → NotIn x (vs ++ ws)
  NotIn-middle [] b ws out = out.1
  NotIn-middle (v ∷ vs) b ws out = (out.0, NotIn-middle vs b ws out.1)

pub Distinct-middle :
    (vs : List ℕ) (b : ℕ) (ws : List ℕ)
    → Distinct (vs ++ b ∷ ws)
    → Distinct (vs ++ ws) × NotIn b (vs ++ ws)
Distinct-middle [] b ws d = (d.1, d.0)
Distinct-middle (v ∷ vs) b ws d =
    let (dl, out) = Distinct-middle vs b ws d.1 in
    let away : b ≢ v = λ e. NotIn-here vs ws (subst (λ x. NotIn x (vs ++ b ∷ ws)) (sym e) d.0) in
    ((NotIn-middle v vs b ws d.0, dl), (λ e. away (sym e), out))
  where
    NotIn-here : (us ts : List ℕ) → NotIn b (us ++ b ∷ ts) → ⊥
    NotIn-here [] ts h = h.0 refl
    NotIn-here (u ∷ us) ts h = NotIn-here us ts h.1

pub Distinct-left : (vs ws : List ℕ) → Distinct (vs ++ ws) → Distinct vs
Distinct-left [] ws d = tt
Distinct-left (v ∷ vs) ws d = ((NotIn-append v vs ws d.0).0, Distinct-left vs ws d.1)

pub NotIn-last_of :
    (p : ℕ) (vs ws : List ℕ) → NotIn p ws → Distinct (vs ++ ws) → NotIn (last_of p vs) ws
NotIn-last_of p [] ws out d = out
NotIn-last_of p (v ∷ vs) ws out d = NotIn-last_of v vs ws ((NotIn-append v vs ws d.0).1) d.1

pub Chain-join :
    (next prev : ℕ → ℕ) (p : ℕ) (vs : List ℕ) (b : ℕ) (ws : List ℕ) (q : ℕ)
    → Chain next prev p vs b
    → Chain next prev b ws q
    → Chain next prev p (vs ++ b ∷ ws) q
Chain-join next prev p [] b ws q l r = (l.0, l.1, r)
Chain-join next prev p (v ∷ vs) b ws q l r = (l.0, l.1, Chain-join next prev v vs b ws q l.2 r)

-- Without `b`, between the buffers before it and those after it.
pub Chain-unlink :
    (next prev : ℕ → ℕ) (p : ℕ) (vs : List ℕ) (b : ℕ) (ws : List ℕ) (q : ℕ)
    → p ≢ b
    → NotIn p vs
    → NotIn p ws
    → NotIn q vs
    → NotIn q ws
    → Distinct (vs ++ b ∷ ws)
    → Chain next prev p vs b
    → Chain next prev b ws q
    → Chain
        (update next (last_of p vs) (first_of ws q))
        (update prev (first_of ws q) (last_of p vs))
        p
        (vs ++ ws)
        q
Chain-unlink next prev p vs b [] q pb pv pw qv qw d l r =
    subst (λ us. Chain (update next (last_of p vs) q) (update prev q (last_of p vs)) p us q)
      (sym (append-nil vs)) (Chain-relink next prev p vs b q pv (Distinct-left vs (b ∷ []) d) qv l)
Chain-unlink next prev p vs b (t ∷ ws) q pb pv pw qv qw d l r =
    let (dm, _) = Distinct-middle vs b (t ∷ ws) d in
    let (dr, out) = Distinct-middle vs t ws dm in
    let (t_vs, t_ws) = NotIn-append t vs ws out in
    let t_last : last_of p vs ≢ t = λ e. last_of-other t p vs (λ e. pw.0 e) t_vs (sym e) in
    let kept : Chain next (update prev t (last_of p vs)) t ws q =
      Chain-prev next prev t (last_of p vs) t ws q (λ e. qw.0 e) t_ws r.2 in
    Chain-join (update next (last_of p vs) t) (update prev t (last_of p vs)) p vs t ws q
      (Chain-relink next prev p vs b t pv (Distinct-left vs ws dr) t_vs l)
      (Chain-next next (update prev t (last_of p vs)) (last_of p vs) t t ws q t_last
        (NotIn-last_of p vs ws pw.1 dr) kept)
