-- ===== src/Common/Maps.antt =====
-- Maps from numbers as association lists. The order of a list stands for the order in which the
-- program's hash map is iterated, which it leaves open.
use r2n.Common.Tests.{◌==◌, if◌then◌else◌, if_cases, Bool-cases, ==_iff}
use r2n.Common.Lists.{length, All, any}
use Prim.Native.Nat.{ℕ, suc, ◌≤◌}
use mathlib.Core.Path.{◌≡◌, refl, subst₂}
use mathlib.Core.Bool.{Bool, false}
use mathlib.Core.Option.{Option, none, some}
use mathlib.Core.Logic.{inl, inr}
use mathlib.Core.List.{List, [], ◌∷◌}
use native.Mathlib.Omega.{arith}

abbrev pub Map {ℓ} : Type ℓ → Type ℓ
Map V = List (ℕ × V)

module _ {ℓ} {V : Type ℓ} where
  unfoldable pub lookup : ℕ → Map V → Option V
  lookup key [] = none
  lookup key ((at, value) ∷ rest) = if at == key then some value else lookup key rest

  unfoldable pub insert : ℕ → V → Map V → Map V
  insert key new [] = (key, new) ∷ []
  insert key new ((at, old) ∷ rest) =
      let below = insert key new rest in if at == key then (key, new) ∷ rest else (at, old) ∷ below

  unfoldable pub remove : ℕ → Map V → Map V
  remove key [] = []
  remove key ((at, value) ∷ rest) =
      let below = remove key rest in if at == key then below else (at, value) ∷ below

  -- `retain`: the entries that a test of the value keeps.
  unfoldable pub retain : (V → Bool) → Map V → Map V
  retain p [] = []
  retain p ((j, v) ∷ m) = if p v then (j, v) ∷ retain p m else retain p m

  unfoldable pub values : Map V → List V
  values [] = []
  values ((j, v) ∷ m) = v ∷ values m

  pub lookup-insert :
      (key asked : ℕ) (new : V) (entries : Map V)
      → lookup asked (insert key new entries)
        ≡ (if key == asked then some new else lookup asked entries)
  unfolding lookup insert
  lookup-insert key asked new [] = refl
  lookup-insert key asked new ((at, old) ∷ rest) =
      let below = lookup-insert key asked new rest in ground (arith, below)

  pub lookup-remove :
      (k j : ℕ) (m : Map V) → lookup j (remove k m) ≡ (if k == j then none else lookup j m)
  unfolding lookup remove
  lookup-remove k j [] = ground arith
  lookup-remove k j ((i, w) ∷ m) = ground (arith, lookup-remove k j m)

  pub length-insert : (k : ℕ) (v : V) (m : Map V) → length (insert k v m) ≤ suc (length m)
  unfolding insert
  length-insert k v [] = omega arith
  length-insert k v ((i, w) ∷ m) = ground (arith, length-insert k v m)

  pub length-retain : (p : V → Bool) (m : Map V) → length (retain p m) ≤ length m
  unfolding retain
  length-retain p [] = omega arith
  length-retain p ((i, w) ∷ m) = ground (arith, length-retain p m)

  pub All-insert {κ} :
      (P : ℕ × V → Type κ) (k : ℕ) (v : V) (m : Map V) → All P m → P (k, v) → All P (insert k v m)
  unfolding insert
  All-insert P k v [] h p = (p, tt)
  All-insert P k v ((j, w) ∷ m) h p =
      if_cases (All P) (j == k) (λ _. (p, h.1)) (λ _. (h.0, All-insert P k v m h.1 p))

  pub All-remove {κ} : (P : ℕ × V → Type κ) (k : ℕ) (m : Map V) → All P m → All P (remove k m)
  unfolding remove
  All-remove P k [] h = h
  All-remove P k ((j, w) ∷ m) h =
      if_cases (All P) (j == k) (λ _. All-remove P k m h.1) (λ _. (h.0, All-remove P k m h.1))

  pub All-lookup {κ} :
      (P : ℕ × V → Type κ) (k : ℕ) (v : V) (m : Map V) → All P m → lookup k m ≡ some v → P (k, v)
  unfolding lookup
  All-lookup P k v [] h e = cc
  All-lookup P k v ((j, w) ∷ m) h e = elim (Bool-cases (j == k)) [
    | inl hit ↦
        let found : some w ≡ some v = rw hit at e in
        let same : w ≡ v = cc in subst₂ (λ (a : ℕ) (b : V). P (a, b)) ((==_iff j k).0 hit) same h.0
    | inr miss ↦ All-lookup P k v m h.1 (rw miss at e)
  ]

  -- A test that fails on all values fails on the one that is looked up, and the other way round.
  pub any-values-lookup :
      (p : V → Bool) (k : ℕ) (v : V) (m : Map V)
      → any p (values m) ≡ false
      → lookup k m ≡ some v
      → p v ≡ false
  unfolding lookup values
  any-values-lookup p k v [] h e = cc
  any-values-lookup p k v ((j, w) ∷ m) h e = ground (arith, any-values-lookup p k v m)

  pub any-values-All :
      (p : V → Bool) (m : Map V) → All (λ e. p e.1 ≡ false) m → any p (values m) ≡ false
  unfolding values
  any-values-All p [] h = refl
  any-values-All p ((j, w) ∷ m) h = ground (arith, any-values-All p m h.1)
