-- ===== src/Common/Sorting.antt =====
-- `sort_by_key(|item| Reverse(key(item)))`, a stable sort, and what it promises.
use Prim.Native.Nat.{ℕ, ◌≤◌, ◌<◌}
use mathlib.Core.Path.{◌≡◌, refl, ◌∙◌}
use mathlib.Core.Logic.{inl, inr}
use mathlib.Core.List.{List, [], ◌∷◌}
use native.Mathlib.Omega.{arith}
use r2n.Common.Lists.{All}
use r2n.Common.Tests.{ltb, ◌==◌, if◌then◌else◌, Bool-cases, ltb→lt, ltb→le}

module _ {ℓ} {A : Type ℓ} (key : A → ℕ) where
  -- An item goes before the first of those behind it that does not have a greater key.
  unfoldable pub place : A → List A → List A
  place p [] = p ∷ []
  place p (q ∷ qs) = let rest = place p qs in if ltb (key p) (key q) then q ∷ rest else p ∷ q ∷ qs

  unfoldable pub sort_by_reverse : List A → List A
  sort_by_reverse [] = []
  sort_by_reverse (p ∷ ps) = place p (sort_by_reverse ps)

  -- The items of one key, in their order.
  pub with_key : ℕ → List A → List A
  with_key s [] = []
  with_key s (p ∷ ps) = let rest = with_key s ps in if key p == s then p ∷ rest else rest

  -- No item stands behind one of a lower key.
  abbrev pub Descends : List A → Type ℓ
  Descends [] = Unit
  Descends (p ∷ ps) = All (λ (q : A). key q ≤ key p) ps × Descends ps

  skip_greater :
      (s : ℕ) (p q : A) (xs : List A)
      → (key p) < (key q)
      → (if key q == s
          then q ∷ (if key p == s then p ∷ xs else xs)
          else (if key p == s then p ∷ xs else xs))
        ≡ (if key p == s
            then p ∷ (if key q == s then q ∷ xs else xs)
            else (if key q == s then q ∷ xs else xs))
  skip_greater s p q xs less = ground arith

  place-with_key : (s : ℕ) (p : A) (qs : List A) → with_key s (place p qs) ≡ with_key s (p ∷ qs)
  unfolding place with_key
  place-with_key s p [] = refl
  place-with_key s p (q ∷ qs) =
      let rest = place-with_key s p qs in
      elim (Bool-cases (ltb (key p) (key q))) [
        | inl b ↦ rw (b, rest) (skip_greater s p q (with_key s qs) (ltb→lt (key p) (key q) b))
        | inr b ↦ rw b refl
      ]

  place-All :
      (n : ℕ) (p : A) (qs : List A)
      → (key p) ≤ n
      → All (λ (q : A). (key q) ≤ n) qs
      → All (λ (q : A). (key q) ≤ n) (place p qs)
  unfolding place
  place-All n p [] h all = (h, tt)
  place-All n p (q ∷ qs) h all =
      let rest = place-All n p qs h all.1 in
      elim (Bool-cases (ltb (key p) (key q))) [ inl b ↦ rw b (all.0, rest) | inr b ↦ rw b (h, all) ]

  All-below :
      (m n : ℕ) (qs : List A)
      → m ≤ n
      → All (λ (q : A). (key q) ≤ m) qs
      → All (λ (q : A). (key q) ≤ n) qs
  All-below m n [] h all = tt
  All-below m n (q ∷ qs) h all = (omega (arith, all.0), All-below m n qs h all.1)

  place-Descends : (p : A) (qs : List A) → Descends qs → Descends (place p qs)
  unfolding place
  place-Descends p [] h = (tt, tt)
  place-Descends p (q ∷ qs) (below, h) =
      let rest = place-Descends p qs h in
      elim (Bool-cases (ltb (key p) (key q))) [
        | inl b ↦
            rw b (place-All (key q) p qs (omega (arith, ltb→lt (key p) (key q) b)) below, rest)
        | inr b ↦
            let less = ltb→le (key p) (key q) b in
            rw b ((less, All-below (key q) (key p) qs less below), (below, h))
      ]

  pub sort_by_reverse-Descends : (ps : List A) → Descends (sort_by_reverse ps)
  unfolding sort_by_reverse
  sort_by_reverse-Descends [] = tt
  sort_by_reverse-Descends (p ∷ ps) =
      place-Descends p (sort_by_reverse ps) (sort_by_reverse-Descends ps)

  pub sort_by_reverse-with_key :
      (s : ℕ) (ps : List A) → with_key s (sort_by_reverse ps) ≡ with_key s ps
  unfolding sort_by_reverse with_key
  sort_by_reverse-with_key s [] = refl
  sort_by_reverse-with_key s (p ∷ ps) =
      let rest = sort_by_reverse-with_key s ps in
      place-with_key s p (sort_by_reverse ps) ∙ rw rest refl
