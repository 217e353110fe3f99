-- ===== src/Dataplane/Path/Choice.antt =====
-- Which address of a peer is in use.
use r2n.Common.{
  ℕ, suc, ◌+◌, ◌-◌, ◌≡◌, ◌⊎◌, refl, ap, ◌∙◌, Bool, true, false, ◌&&◌, some, List, [], ◌∷◌, arith,
  All, ltb, if_cases, Bool-cases, inl, inr,
}
use r2n.Dataplane.Path.{Floats, PathInfo, score, get, best, reevaluate, five_secs}

module _ (floats : Floats) where
  open floats use {F, lt, lt_irrefl, lt_trans, max_value}

  -- The path answered within the last five seconds.
  abbrev pub recent : ℕ → PathInfo floats → Bool
  recent now p = ltb (now - p.last_success) five_secs

  -- No path that answered of late has a lower score.
  abbrev pub NoneBelow : ℕ → F → List (PathInfo floats) → Type 0
  NoneBelow now s = All (λ q. recent now q ≡ true → lt (score floats q) s ≡ false)

  -- What a search that starts with `best_score` found among the paths.
  abbrev Found : ℕ → ℕ → List (PathInfo floats) → ℕ → F → ℕ × F → Type 0
  Found now i ps best_idx best_score r =
      ((r ≡ (best_idx, best_score)) × NoneBelow now best_score ps)
      ⊎ ((k : ℕ) × (p : PathInfo floats) × (get floats ps k ≡ some p)
          × (r ≡ (i + k, score floats p))
          × (recent now p ≡ true)
          × (lt (score floats p) best_score ≡ true)
          × NoneBelow now (score floats p) ps)

  not_below : (a b : F) → lt a b ≡ true → lt b a ≡ false
  not_below a b h = elim (Bool-cases (lt b a)) [
    | inl k ↦ cc (lt_irrefl a, lt_trans a b a h k)
    | inr k ↦ k
  ]

  not_below_trans : (a b c : F) → lt b c ≡ true → lt a c ≡ false → lt a b ≡ false
  not_below_trans a b c h k = elim (Bool-cases (lt a b)) [
    | inl u ↦ cc (k, lt_trans a b c u h)
    | inr u ↦ u
  ]

  both_true : (a b : Bool) → (a && b) ≡ true → (a ≡ true) × (b ≡ true)
  both_true a b h = ground arith

  best-Found :
      (now i : ℕ) (ps : List (PathInfo floats)) (best_idx : ℕ) (best_score : F)
      → Found now i ps best_idx best_score (best floats now i ps best_idx best_score)
  unfolding best get
  best-Found now i [] best_idx best_score = inl (refl, tt)
  best-Found now i (p ∷ ps) best_idx best_score =
      if_cases (Found now i (p ∷ ps) best_idx best_score)
        (recent now p && lt (score floats p) best_score)
        (λ h.
          let (fresh, less) = both_true (recent now p) (lt (score floats p) best_score) h in
          elim (best-Found now (suc i) ps i (score floats p)) [
            | inl (eq, none_below) ↦ inr (
              0,
              p,
              refl,
              eq ∙ ap (λ (n : ℕ). (n, score floats p)) {x = i} {y = i + 0} (omega arith),
              fresh,
              less,
              (λ _. lt_irrefl (score floats p), none_below),
            )
            | inr (k, q, at, eq, q_fresh, q_less, none_below) ↦ inr (
              suc k,
              q,
              at,
              eq
                  ∙ ap (λ (n : ℕ). (n, score floats q)) {x = suc i + k} {y = i + suc k}
                      (omega arith),
              q_fresh,
              lt_trans (score floats q) (score floats p) best_score q_less less,
              (λ _. not_below (score floats q) (score floats p) q_less, none_below),
            )
          ])
        (λ h. elim (best-Found now (suc i) ps best_idx best_score) [
          | inl (eq, none_below) ↦ inl (eq, (λ fresh. ground (arith, h), none_below))
          | inr (k, q, at, eq, q_fresh, q_less, none_below) ↦ inr (
            suc k,
            q,
            at,
            eq ∙ ap (λ (n : ℕ). (n, score floats q)) {x = suc i + k} {y = i + suc k} (omega arith),
            q_fresh,
            q_less,
            (
              λ fresh.
                  not_below_trans (score floats p) (score floats q) best_score q_less
                    (ground (arith, h)),
              none_below,
            ),
          )
        ])

  -- With at least one path, `reevaluate` takes a path that answered within the last five seconds
  -- and than which no other such path has a lower score; where none of those scores below
  -- `f32::MAX`, it takes the first path of the list.
  pub reevaluate-best :
      (now : ℕ) (p : PathInfo floats) (ps : List (PathInfo floats)) (active_index : ℕ)
      → let paths = p ∷ ps in
        let chosen =
          (reevaluate floats now
            (record { paths = paths; active_index = active_index })).active_index in
        ((chosen ≡ 0) × NoneBelow now max_value paths)
        ⊎ ((q : PathInfo floats) × (get floats paths chosen ≡ some q)
            × (recent now q ≡ true)
            × NoneBelow now (score floats q) paths)
  unfolding reevaluate
  reevaluate-best now p ps active_index = elim (best-Found now 0 (p ∷ ps) 0 max_value) [
    | inl (eq, none_below) ↦ inl (ap (λ (r : ℕ × F). r.0) eq, none_below)
    | inr (k, q, at, eq, fresh, less, none_below) ↦ inr (
      q,
      ap (get floats (p ∷ ps)) (ap (λ (r : ℕ × F). r.0) eq ∙ zero_plus k) ∙ at,
      fresh,
      none_below,
    )
  ]
    where
      zero_plus : (k : ℕ) → 0 + k ≡ k
      zero_plus k = omega arith
