-- ===== src/Bio/Walk.antt =====
-- The loops of `bget` of bio.c over the list of buffers, in both directions.
use p2b.Prelude.{
  ℕ, zero, suc, ◌<◌, ◌≡◌, refl, ap, ◌⊎◌, inl, inr, Bool, true, false, Option, none, some, List, [],
  ◌∷◌, ◌++◌, length, length-append, arith, ◌==◌, if◌then◌else◌, Bool-cases,
}
use mathlib.Core.Path.{subst}
use p2b.Kalloc.Free.{NotIn}
use p2b.Bio.{head, walk}
use p2b.Bio.Chain.{Chain, Chain-join}

abbrev pub rev : List ℕ → List ℕ
rev [] = []
rev (v ∷ vs) = rev vs ++ v ∷ []

abbrev pub IsIn : ℕ → List ℕ → Type 0
IsIn b [] = ⊥
IsIn b (v ∷ vs) = (v ≡ b) ⊎ IsIn b vs

pub find_in : (ℕ → Bool) → List ℕ → Option ℕ
find_in test [] = none
find_in test (v ∷ vs) = if test v then some v else find_in test vs

pub IsIn-append_left : (b : ℕ) (vs ws : List ℕ) → IsIn b vs → IsIn b (vs ++ ws)
IsIn-append_left b [] ws h = elim h [ ]
IsIn-append_left b (v ∷ vs) ws (inl e) = inl e
IsIn-append_left b (v ∷ vs) ws (inr h) = inr (IsIn-append_left b vs ws h)

pub IsIn-append_right : (b : ℕ) (vs ws : List ℕ) → IsIn b ws → IsIn b (vs ++ ws)
IsIn-append_right b [] ws h = h
IsIn-append_right b (v ∷ vs) ws h = inr (IsIn-append_right b vs ws h)

pub IsIn-append_cases : (b : ℕ) (vs ws : List ℕ) → IsIn b (vs ++ ws) → IsIn b vs ⊎ IsIn b ws
IsIn-append_cases b [] ws h = inr h
IsIn-append_cases b (v ∷ vs) ws (inl e) = inl (inl e)
IsIn-append_cases b (v ∷ vs) ws (inr h) = elim (IsIn-append_cases b vs ws h) [
  | inl l ↦ inl (inr l)
  | inr r ↦ inr r
]

pub IsIn-rev : (b : ℕ) (vs : List ℕ) → IsIn b vs → IsIn b (rev vs)
IsIn-rev b [] h = elim h [ ]
IsIn-rev b (v ∷ vs) (inl e) = IsIn-append_right b (rev vs) (v ∷ []) (inl e)
IsIn-rev b (v ∷ vs) (inr h) = IsIn-append_left b (rev vs) (v ∷ []) (IsIn-rev b vs h)

pub IsIn-rev_back : (b : ℕ) (vs : List ℕ) → IsIn b (rev vs) → IsIn b vs
IsIn-rev_back b [] h = elim h [ ]
IsIn-rev_back b (v ∷ vs) h = elim (IsIn-append_cases b (rev vs) (v ∷ []) h) [
  | inl l ↦ inr (IsIn-rev_back b vs l)
  | inr (inl e) ↦ inl e
  | inr (inr x) ↦ elim x [ ]
]

pub length-rev : (vs : List ℕ) → length (rev vs) ≡ length vs
length-rev [] = refl
length-rev (v ∷ vs) = omega (arith, length-append (rev vs) (v ∷ []), length-rev vs)

pub find_in-some :
    (test : ℕ → Bool) (vs : List ℕ) (b : ℕ) → find_in test vs ≡ some b → IsIn b vs × (test b ≡ true)
unfolding find_in
find_in-some test [] b e = absurd (ground arith)
find_in-some test (v ∷ vs) b e = elim (Bool-cases (test v)) [
  | inl here ↦ let same : v ≡ b = ground arith in (inl same, subst (λ x. test x ≡ true) same here)
  | inr no_hit ↦ let (i, h) = find_in-some test vs b (rw no_hit at e) in (inr i, h)
]

pub find_in-none :
    (test : ℕ → Bool) (vs : List ℕ) → find_in test vs ≡ none → (b : ℕ) → IsIn b vs → test b ≡ false
unfolding find_in
find_in-none test [] e b h = elim h [ ]
find_in-none test (v ∷ vs) e b h = elim (Bool-cases (test v)) [
  | inl here ↦ absurd (ground arith)
  | inr no_hit ↦ elim h [
    | inl same ↦ subst (λ x. test x ≡ false) same no_hit
    | inr i ↦ find_in-none test vs (rw no_hit at e) b i
  ]
]

-- The same chain, backwards.
pub Chain-rev :
    (next prev : ℕ → ℕ) (p : ℕ) (vs : List ℕ) (q : ℕ)
    → Chain next prev p vs q
    → Chain prev next q (rev vs) p
Chain-rev next prev p [] q c = (c.1, c.0)
Chain-rev next prev p (v ∷ vs) q c =
    Chain-join prev next q (rev vs) v [] p (Chain-rev next prev v vs q c.2) (c.1, c.0)

-- A loop along a chain that leads back to the head finds what a search of the list does.
pub walk_lem :
    (n : ℕ) (test : ℕ → Bool) (link back : ℕ → ℕ) (p : ℕ) (vs : List ℕ)
    → length vs < n
    → NotIn head vs
    → Chain link back p vs head
    → walk n link test (link p) ≡ find_in test vs
unfolding walk find_in
walk_lem zero test link back p vs lt out c = absurd (omega arith)
walk_lem (suc n) test link back p [] lt out c =
    let stop : (link p == head) ≡ true = ground (arith, c.0) in rw (stop, walk) refl
walk_lem (suc n) test link back p (v ∷ vs) lt out c =
    let more : (v == head) ≡ false = ground (arith, out.0) in
    rw (c.0, more)
      (elim (Bool-cases (test v)) [
        | inl here ↦ rw here refl
        | inr no_hit ↦ rw no_hit (walk_lem n test link back v vs (omega arith) out.1 c.2)
      ])

NotIn-join : (x : ℕ) (vs ws : List ℕ) → NotIn x vs → NotIn x ws → NotIn x (vs ++ ws)
NotIn-join x [] ws l r = r
NotIn-join x (v ∷ vs) ws l r = (l.0, NotIn-join x vs ws l.1 r)

pub NotIn-rev : (x : ℕ) (vs : List ℕ) → NotIn x vs → NotIn x (rev vs)
NotIn-rev x [] out = tt
NotIn-rev x (v ∷ vs) out = NotIn-join x (rev vs) (v ∷ []) (NotIn-rev x vs out.1) (out.0, tt)

pub IsIn-split :
    (b : ℕ) (vs : List ℕ) → IsIn b vs → (us : List ℕ) × (ws : List ℕ) × (vs ≡ us ++ b ∷ ws)
IsIn-split b [] h = elim h [ ]
IsIn-split b (v ∷ vs) (inl e) = ([], vs, ap (λ x. x ∷ vs) e)
IsIn-split b (v ∷ vs) (inr h) =
    let (us, ws, e) = IsIn-split b vs h in (v ∷ us, ws, ap (λ xs. v ∷ xs) e)
