-- ===== src/Bio/Ring.antt =====
-- The list of all buffers in the order of their last use, of bio.c.
use p2b.Prelude.{ℕ, ◌≡◌, ◌≢◌, sym, ap, ◌∙◌, List, [], ◌∷◌, ◌++◌, arith, update}
use mathlib.Core.Path.{subst, ap₂}
use p2b.Kalloc.Free.{NotIn}
use p2b.Bio.{head, Bcache, unlink, push_front}
use p2b.Bio.Chain.{
  Chain, Distinct, Chain-first, Chain-last, Chain-split, Chain-next, Chain-prev, last_of, first_of,
  first_of-other, Chain-unlink, NotIn-append, NotIn-middle, Distinct-middle,
}

-- The buffers from the most recently used on are `vs`.
pub record IsRing (c : Bcache) (vs : List ℕ) : Type 0 where
  pub chain : Chain c.next c.prev head vs head
  pub away : NotIn head vs
  pub distinct : Distinct vs

module _ (b : ℕ) (c : Bcache) where
  -- The links that `push_front` sets, with `f` for the first buffer of the list.
  module _ (ne : b ≢ head) where
    push_front-prev :
        (f : ℕ) → c.next head ≡ f → (push_front b c).prev ≡ update (update c.prev b head) f b
    unfolding push_front
    push_front-prev f e =
        let index : update c.next b (c.next head) head ≡ f = ground arith in
        ap (λ i. update (update c.prev b head) i b) index

    push_front-Chain :
        (v : ℕ) (vs : List ℕ)
        → NotIn head (v ∷ vs)
        → NotIn b (v ∷ vs)
        → NotIn v vs
        → Chain c.next c.prev head (v ∷ vs) head
        → Chain
            (update (update c.next b (c.next head)) head b)
            (update (update c.prev b head) v b)
            head
            (b ∷ v ∷ vs)
            head
    push_front-Chain v vs away out d k =
        let rest : Chain c.next (update (update c.prev b head) v b) v vs head =
          Chain-prev c.next (update c.prev b head) v b v vs head (away.0) d
            (Chain-prev c.next c.prev b head v vs head ne out.1 k.2) in
        let moved : Chain (update c.next b (c.next head)) (update (update c.prev b head) v b) v vs
            head =
          Chain-next c.next (update (update c.prev b head) v b) b (c.next head) v vs head
            (λ e. out.0 (sym e)) out.1 rest in
        (
          ground arith,
          ground (arith, out.0),
          (
            ground (arith, k.0),
            ground arith,
            Chain-next (update c.next b (c.next head)) (update (update c.prev b head) v b) head b v
                vs head (λ e. away.0 (sym e)) away.1 moved,
          ),
        )

    pub push_front-IsRing :
        (vs : List ℕ) → IsRing c vs → NotIn b vs → IsRing (push_front b c) (b ∷ vs)
    unfolding push_front
    push_front-IsRing [] r out = record {
      chain = (
        ground arith,
        ground (arith, r.chain.0),
        (ground (arith, r.chain.0), ground (arith, r.chain.0)),
      );
      away = (ne, tt);
      distinct = (tt, tt);
    }
    push_front-IsRing (v ∷ vs) r out = record {
      chain =
          subst
            (λ g. Chain (update (update c.next b (c.next head)) head b) g head (b ∷ v ∷ vs) head)
            (sym (push_front-prev v r.chain.0))
            (push_front-Chain v vs r.away out r.distinct.0 r.chain);
      away = (ne, r.away);
      distinct = (out, r.distinct);
    }

  -- `unlink` of a buffer anywhere in the list.
  module _ (vs ws : List ℕ) (r : IsRing c (vs ++ b ∷ ws)) where
    away : NotIn head vs × NotIn head (b ∷ ws)
    away = NotIn-append head vs (b ∷ ws) r.away

    apart : Distinct (vs ++ ws) × NotIn b (vs ++ ws)
    apart = Distinct-middle vs b ws r.distinct

    halves : Chain c.next c.prev head vs b × Chain c.next c.prev b ws head
    halves = Chain-split c.next c.prev head vs b ws head r.chain

    not_head : b ≢ head
    not_head = away.1.0

    after-eq : c.next b ≡ first_of ws head
    after-eq = Chain-first c.next c.prev b ws head halves.1

    before-eq : c.prev b ≡ last_of head vs
    before-eq = Chain-last c.next c.prev head vs b halves.0

    unlink-links :
        ((unlink b c).next ≡ update c.next (last_of head vs) (first_of ws head))
        × ((unlink b c).prev ≡ update c.prev (first_of ws head) (last_of head vs))
    unfolding unlink
    unlink-links =
        let t_not_b : c.next b ≢ b = λ e.
          first_of-other b ws head not_head ((NotIn-append b vs ws apart.1).1) (sym e ∙ after-eq) in
        let index : update c.prev (c.next b) (c.prev b) b ≡ c.prev b = ground arith in
        (
          ap₂ (λ i t. update c.next i t) (index ∙ before-eq) after-eq,
          ap₂ (λ i t. update c.prev i t) after-eq before-eq,
        )

    pub unlink-IsRing : IsRing (unlink b c) (vs ++ ws)
    unlink-IsRing = record {
      chain =
          subst (λ g. Chain g (unlink b c).prev head (vs ++ ws) head) (sym unlink-links.0)
            (subst
              (λ g.
                Chain (update c.next (last_of head vs) (first_of ws head)) g head (vs ++ ws) head)
              (sym unlink-links.1)
              (Chain-unlink c.next c.prev head vs b ws head (λ e. not_head (sym e)) away.0 away.1.1
                away.0 away.1.1 r.distinct halves.0 halves.1));
      away = NotIn-middle head vs b ws r.away;
      distinct = apart.0;
    }
