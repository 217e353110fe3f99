-- ===== src/Rendezvous/Pairs.antt =====
-- Which pairs there are, with which scores, and in which order.
use r2n.Common.{
  ℕ, ◌+◌, ◌*◌, ◌%◌, ◌^◌, ◌≡◌, ◌≢◌, refl, sym, ap, ◌∙◌, Bool, true, false, ◌&&◌, List, [], ◌∷◌, ◌++◌,
  map, arith, All, ltb, if◌then◌else◌, if_cases, Bool-cases, inl, inr,
}
use r2n.Common.Sorting.{place, sort_by_reverse, Descends, sort_by_reverse-Descends}
use r2n.Supernode.Frames.{
  CandidateKind, Candidate, host_lan, host_ipv6, server_reflexive, port_predicted, relay,
}
use r2n.Rendezvous.{CandidatePair, bonus, pair, all_pairs, build_candidate_pairs}

-- How many items pass a test.
pub count_if {ℓ} : {A : Type ℓ} → (A → Bool) → List A → ℕ
count_if f [] = 0
count_if f (x ∷ xs) = let rest = count_if f xs in if f x then 1 + rest else rest

count_if-append {ℓ} :
    {A : Type ℓ} (f : A → Bool) (xs ys : List A)
    → count_if f (xs ++ ys) ≡ count_if f xs + count_if f ys
unfolding count_if
count_if-append f [] ys = omega arith
count_if-append f (x ∷ xs) ys = grind (arith, count_if-append f xs ys)

count_if-map {ℓ κ} :
    {A : Type ℓ} {B : Type κ} (f : B → Bool) (g : A → B) (xs : List A)
    → count_if f (map g xs) ≡ count_if (λ x. f (g x)) xs
unfolding count_if
count_if-map f g [] = refl
count_if-map f g (x ∷ xs) = rw (count_if-map f g xs) refl

count_if-false {ℓ} : {A : Type ℓ} (xs : List A) → count_if (λ x. false) xs ≡ 0
unfolding count_if
count_if-false [] = refl
count_if-false (x ∷ xs) = count_if-false xs

module _ {ℓ} {A : Type ℓ} (f : A → Bool) (key : A → ℕ) where
  count_if-place : (p : A) (qs : List A) → count_if f (place key p qs) ≡ count_if f (p ∷ qs)
  unfolding place count_if
  count_if-place p [] = refl
  count_if-place p (q ∷ qs) =
      let rest = count_if-place p qs in
      elim (Bool-cases (ltb (key p) (key q))) [
        | inl b ↦ rw (b, rest) (ground arith)
        | inr b ↦ rw b refl
      ]

  -- Sorting neither loses nor doubles an item.
  count_if-sort_by_reverse : (ps : List A) → count_if f (sort_by_reverse key ps) ≡ count_if f ps
  unfolding sort_by_reverse count_if
  count_if-sort_by_reverse [] = refl
  count_if-sort_by_reverse (p ∷ ps) =
      count_if-place p (sort_by_reverse key ps) ∙ rw (count_if-sort_by_reverse ps) refl

module _ {ℓ} {A : Type ℓ} (P : A → Type 0) (key : A → ℕ) where
  place-All : (p : A) (qs : List A) → P p → All P qs → All P (place key p qs)
  unfolding place
  place-All p [] h all = (h, tt)
  place-All p (q ∷ qs) h all =
      if_cases (All P) (ltb (key p) (key q)) (λ _. (all.0, place-All p qs h all.1)) (λ _. (h, all))

  sort_by_reverse-All : (ps : List A) → All P ps → All P (sort_by_reverse key ps)
  unfolding sort_by_reverse
  sort_by_reverse-All [] all = tt
  sort_by_reverse-All (p ∷ ps) all =
      place-All p (sort_by_reverse key ps) all.0 (sort_by_reverse-All ps all.1)

abbrev pub score_of : CandidatePair → ℕ
score_of p = p.score

-- What two candidates of one kind are preferred by; for those of different kinds it is 10.
abbrev pub preference : CandidateKind → ℕ
preference host_lan = 40
preference host_ipv6 = 30
preference server_reflexive = 20
preference port_predicted = 10
preference relay = 0

abbrev pub IsScored : CandidatePair → Type 0
IsScored p =
    let priorities = p.local.priority + p.remote.priority in
    (p.local.kind ≡ p.remote.kind → p.score ≡ (priorities + preference p.local.kind) % 2 ^ 32)
    × (p.local.kind ≢ p.remote.kind → p.score ≡ (priorities + 10) % 2 ^ 32)

bonus_same : (k : CandidateKind) → bonus k k ≡ preference k
bonus_same host_lan = refl
bonus_same host_ipv6 = refl
bonus_same server_reflexive = refl
bonus_same port_predicted = refl
bonus_same relay = refl

bonus_other : (k m : CandidateKind) → k ≢ m → bonus k m ≡ 10
bonus_other host_lan host_lan ne = elim (ne refl) [ ]
bonus_other host_lan host_ipv6 ne = refl
bonus_other host_lan server_reflexive ne = refl
bonus_other host_lan port_predicted ne = refl
bonus_other host_lan relay ne = refl
bonus_other host_ipv6 host_lan ne = refl
bonus_other host_ipv6 host_ipv6 ne = elim (ne refl) [ ]
bonus_other host_ipv6 server_reflexive ne = refl
bonus_other host_ipv6 port_predicted ne = refl
bonus_other host_ipv6 relay ne = refl
bonus_other server_reflexive host_lan ne = refl
bonus_other server_reflexive host_ipv6 ne = refl
bonus_other server_reflexive server_reflexive ne = elim (ne refl) [ ]
bonus_other server_reflexive port_predicted ne = refl
bonus_other server_reflexive relay ne = refl
bonus_other port_predicted host_lan ne = refl
bonus_other port_predicted host_ipv6 ne = refl
bonus_other port_predicted server_reflexive ne = refl
bonus_other port_predicted port_predicted ne = refl
bonus_other port_predicted relay ne = refl
bonus_other relay host_lan ne = refl
bonus_other relay host_ipv6 ne = refl
bonus_other relay server_reflexive ne = refl
bonus_other relay port_predicted ne = refl
bonus_other relay relay ne = elim (ne refl) [ ]

pair-IsScored : (left right : Candidate) → IsScored (pair left right)
pair-IsScored left right = (
  λ same.
      ap (λ (n : ℕ). (left.priority + right.priority + n) % 2 ^ 32)
        (ap (bonus left.kind) (sym same) ∙ bonus_same left.kind),
  λ other.
      ap (λ (n : ℕ). (left.priority + right.priority + n) % 2 ^ 32)
        (bonus_other left.kind right.kind other),
)

row-IsScored :
    (left : Candidate) (remote : List Candidate) (rest : List CandidatePair)
    → All IsScored rest
    → All IsScored (map (λ right. pair left right) remote ++ rest)
row-IsScored left [] rest all = all
row-IsScored left (right ∷ remote) rest all =
    (pair-IsScored left right, row-IsScored left remote rest all)

all_pairs-IsScored : (local remote : List Candidate) → All IsScored (all_pairs local remote)
unfolding all_pairs
all_pairs-IsScored [] remote = tt
all_pairs-IsScored (left ∷ local) remote =
    row-IsScored left remote (all_pairs local remote) (all_pairs-IsScored local remote)

count_if-row :
    (f g : Candidate → Bool) (left : Candidate) (remote : List Candidate)
    → f left ≡ true
    → count_if
        (λ (p : CandidatePair). f p.local && g p.remote)
        (map (λ right. pair left right) remote)
      ≡ count_if g remote
unfolding count_if
count_if-row f g left [] e = refl
count_if-row f g left (right ∷ remote) e = rw (e, count_if-row f g left remote e) refl

no_row :
    (f g : Candidate → Bool) (left : Candidate) (remote : List Candidate)
    → f left ≡ false
    → count_if
        (λ (p : CandidatePair). f p.local && g p.remote)
        (map (λ right. pair left right) remote)
      ≡ 0
unfolding count_if
no_row f g left [] e = refl
no_row f g left (right ∷ remote) e = rw e (no_row f g left remote e)

one_more : (a b : ℕ) → b + a * b ≡ (1 + a) * b
one_more a b = grind arith

count_if-all_pairs :
    (f g : Candidate → Bool) (local remote : List Candidate)
    → count_if (λ (p : CandidatePair). f p.local && g p.remote) (all_pairs local remote)
      ≡ count_if f local * count_if g remote
unfolding all_pairs count_if
count_if-all_pairs f g [] remote = omega arith
count_if-all_pairs f g (left ∷ local) remote =
    let both : CandidatePair → Bool = λ p. f p.local && g p.remote in
    let rest = count_if-all_pairs f g local remote in
    count_if-append both (map (λ right. pair left right) remote) (all_pairs local remote)
    ∙ elim (Bool-cases (f left)) [
      | inl e ↦
          rw (e, count_if-row f g left remote e, rest)
            (one_more (count_if f local) (count_if g remote))
      | inr e ↦ rw (e, no_row f g left remote e, rest) (omega arith)
    ]

-- The pairs come in the order of falling scores. The score of a pair is the sum of the priorities
-- and of 40, 30, 20, 10 or 0 for two candidates of one kind, by the kind, or 10 for two of
-- different kinds, as a u32. Of any sort of local and any sort of remote candidates there are as
-- many pairs as the product of their numbers: each local candidate is paired with each remote one,
-- once.
pub build_candidate_pairs_complete :
    (local remote : List Candidate)
    → Descends score_of (build_candidate_pairs local remote)
      × All IsScored (build_candidate_pairs local remote)
      × ((f g : Candidate → Bool)
          → count_if
              (λ (p : CandidatePair). f p.local && g p.remote)
              (build_candidate_pairs local remote)
            ≡ count_if f local * count_if g remote)
unfolding build_candidate_pairs
build_candidate_pairs_complete local remote = (
  sort_by_reverse-Descends score_of (all_pairs local remote),
  sort_by_reverse-All IsScored score_of (all_pairs local remote) (all_pairs-IsScored local remote),
  λ f g.
      count_if-sort_by_reverse (λ (p : CandidatePair). f p.local && g p.remote) score_of
        (all_pairs local remote)
      ∙ count_if-all_pairs f g local remote,
)
