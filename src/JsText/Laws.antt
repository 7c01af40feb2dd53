-- ===== src/JsText/Laws.antt =====
-- Splitting and joining.
use clawsembly_kernel.Prelude.{ℕ, ◌≡◌, ◌≢◌, refl, false, List, [], ◌∷◌, arith, nat_eq, All}
use clawsembly_kernel.JsText.{Text, split, join, includes, extend_first}

-- No part of a split holds the separator.
pub split-All : (c : ℕ) (t : Text) → All (λ part. includes c part ≡ false) (split c t)
unfolding split includes
split-All c [] = (refl, tt)
split-All c (x ∷ xs) = ground (arith, split-All c xs)

split-ne-nil : (c : ℕ) (t : Text) → split c t ≢ []
unfolding split
split-ne-nil c [] = λ e. cc
split-ne-nil c (x ∷ xs) = ground (arith, split-ne-nil c xs)

join-extend :
    (c x : ℕ) (parts : List Text) → parts ≢ [] → join c (extend_first x parts) ≡ x ∷ join c parts
unfolding join
join-extend c x [] n = absurd (n refl)
join-extend c x (part ∷ []) n = refl
join-extend c x (part ∷ next ∷ parts) n = refl

join-cons : (c : ℕ) (parts : List Text) → parts ≢ [] → join c ([] ∷ parts) ≡ c ∷ join c parts
unfolding join
join-cons c [] n = absurd (n refl)
join-cons c (part ∷ parts) n = refl

-- Joining the parts gives the text back.
pub join-split : (c : ℕ) (t : Text) → join c (split c t) ≡ t
unfolding split
join-split c [] = unfold join in refl
join-split c (x ∷ xs) = ground (
  arith,
  join-split c xs,
  join-extend c x (split c xs) (split-ne-nil c xs),
  join-cons c (split c xs) (split-ne-nil c xs),
  nat_eq.beq_iff x c,
)
