-- ===== src/Rendezvous/Upgrade.antt =====
-- The path that a peer is moved to.
use r2n.Common.{
  ℕ, ◌≡◌, ◌⊎◌, refl, ap, Bool, true, false, Option, none, some, List, [], ◌∷◌, ◌++◌, arith, All,
  if_cases, inl, inr, ◌*◌, ◌<◌, ◌≤◌, ltb→lt, ltb→le,
}
use r2n.Rendezvous.{PathScore, rtt_or, key_less, better, least, choose_upgrade}

All-map {ℓ κ} :
    {A : Type ℓ} {P Q : A → Type κ} → ((x : A) → P x → Q x) → (xs : List A) → All P xs → All Q xs
All-map f [] h = tt
All-map f (x ∷ xs) h = (f x h.0, All-map f xs h.1)

-- Less than what is less, and than what is not less than that.
key_less_trans :
    (a b c : Bool) (d e f : ℕ)
    → key_less a d b e ≡ true
    → key_less b e c f ≡ true
    → key_less a d c f ≡ true
key_less_trans a b c d e f h k = ground arith

key_less_below :
    (a b c : Bool) (d e f : ℕ)
    → key_less a d b e ≡ true
    → key_less c f b e ≡ false
    → key_less a d c f ≡ true
key_less_below a b c d e f h k = ground arith

better_trans : (p q r : PathScore) → better p q ≡ true → better q r ≡ true → better p r ≡ true
better_trans p q r =
    key_less_trans p.is_relay q.is_relay r.is_relay (rtt_or p.rtt) (rtt_or q.rtt) (rtt_or r.rtt)

better_below : (p q r : PathScore) → better p q ≡ true → better r q ≡ false → better p r ≡ true
better_below p q r =
    key_less_below p.is_relay q.is_relay r.is_relay (rtt_or p.rtt) (rtt_or q.rtt) (rtt_or r.rtt)

-- The first of the least paths of a list.
abbrev FirstLeast : PathScore → List PathScore → Type 0
FirstLeast path paths =
    (front : List PathScore) × (back : List PathScore) × (paths ≡ front ++ (path ∷ back))
    × All (λ (q : PathScore). better path q ≡ true) front
    × All (λ (q : PathScore). better q path ≡ false) back

Least : PathScore → List PathScore → PathScore → Type 0
Least best paths result =
    ((result ≡ best) × All (λ (q : PathScore). better q best ≡ false) paths)
    ⊎ ((better result best ≡ true) × FirstLeast result paths)

later :
    (best p : PathScore) (ps : List PathScore) (path : PathScore)
    → better path best ≡ true
    → better path p ≡ true
    → FirstLeast path ps
    → Least best (p ∷ ps) path
unfolding Least
later best p ps path h k (front, back, e, ahead, behind) =
    inr (h, (p ∷ front, back, ap (◌∷◌ p) e, (k, ahead), behind))

least-Least : (best : PathScore) (paths : List PathScore) → Least best paths (least best paths)
unfolding least Least
least-Least best [] = inl (refl, tt)
least-Least best (p ∷ ps) =
    let taken = least-Least p ps in
    let kept = least-Least best ps in
    if_cases (Least best (p ∷ ps)) (better p best)
      (λ (b : better p best ≡ true). elim taken [
        | inl (e, none_less) ↦ rw e (inr (b, ([], ps, refl, tt, none_less)))
        | inr (less, first) ↦
            later best p ps (least p ps) (better_trans (least p ps) p best less b) less first
      ])
      (λ (b : better p best ≡ false). elim kept [
        | inl (e, none_less) ↦ inl (e, (b, none_less))
        | inr (less, first) ↦
            later best p ps (least best ps) less (better_below (least best ps) best p less b) first
      ])

least-FirstLeast : (p : PathScore) (ps : List PathScore) → FirstLeast (least p ps) (p ∷ ps)
unfolding Least
least-FirstLeast p ps = elim (least-Least p ps) [
  | inl (e, none_less) ↦ rw e ([], ps, refl, tt, none_less)
  | inr (less, (front, back, e, ahead, behind)) ↦
      (p ∷ front, back, ap (◌∷◌ p) e, (less, ahead), behind)
]

choose_upgrade-FirstLeast :
    (peer : ℕ) (relay_fallback : Option ℕ) (paths : List PathScore)
    → ((paths ≡ []) × (choose_upgrade peer relay_fallback paths ≡ none))
      ⊎ ((path : PathScore) × (choose_upgrade peer relay_fallback paths
            ≡ some (record { peer = peer; preferred = path.addr; relay_fallback = relay_fallback }))
          × FirstLeast path paths)
unfolding choose_upgrade
choose_upgrade-FirstLeast peer relay_fallback [] = inl (refl, refl)
choose_upgrade-FirstLeast peer relay_fallback (p ∷ ps) =
    inr (least p ps, refl, least-FirstLeast p ps)

-- A round trip that was not measured counts as 999 ms.
abbrev pub round_trip : Option ℕ → ℕ
round_trip (some d) = d
round_trip none = 999 * 1_000_000

round_trip_lem : (o : Option ℕ) → rtt_or o ≡ round_trip o
round_trip_lem none = refl
round_trip_lem (some d) = refl

-- A path is relayed only if the other is, and of two relayed or two direct ones it is the faster.
abbrev pub Precedes : PathScore → PathScore → Type 0
Precedes p q =
    (p.is_relay ≡ true → q.is_relay ≡ true)
    × (p.is_relay ≡ q.is_relay → round_trip p.rtt < round_trip q.rtt)

abbrev pub NotBehind : PathScore → PathScore → Type 0
NotBehind p q =
    (p.is_relay ≡ true → q.is_relay ≡ true)
    × (p.is_relay ≡ q.is_relay → round_trip p.rtt ≤ round_trip q.rtt)

key_less_lem :
    (a b : Bool) (d e : ℕ) → key_less a d b e ≡ true → (a ≡ true → b ≡ true) × (a ≡ b → d < e)
key_less_lem true true d e h = (λ k. refl, λ k. ltb→lt d e h)
key_less_lem true false d e h = cc
key_less_lem false true d e h = (λ k. refl, λ k. cc)
key_less_lem false false d e h = (λ k. cc, λ k. ltb→lt d e h)

key_less_not :
    (a b : Bool) (d e : ℕ) → key_less b e a d ≡ false → (a ≡ true → b ≡ true) × (a ≡ b → d ≤ e)
key_less_not true true d e h = (λ k. refl, λ k. ltb→le e d h)
key_less_not true false d e h = cc
key_less_not false true d e h = (λ k. refl, λ k. cc)
key_less_not false false d e h = (λ k. cc, λ k. ltb→le e d h)

better-Precedes : (p q : PathScore) → better p q ≡ true → Precedes p q
better-Precedes p q h =
    rw (← round_trip_lem p.rtt, ← round_trip_lem q.rtt)
      (key_less_lem p.is_relay q.is_relay (rtt_or p.rtt) (rtt_or q.rtt) h)

better-NotBehind : (p q : PathScore) → better q p ≡ false → NotBehind p q
better-NotBehind p q h =
    rw (← round_trip_lem p.rtt, ← round_trip_lem q.rtt)
      (key_less_not p.is_relay q.is_relay (rtt_or p.rtt) (rtt_or q.rtt) h)

-- There is an upgrade unless there are no paths. It is to one of the paths: a relayed one only where
-- all are, and of those that are relayed as it is one of the least round trip, the first of these;
-- a round trip that was not measured counts as 999 ms.
pub choose_upgrade_first :
    (peer : ℕ) (relay_fallback : Option ℕ) (paths : List PathScore)
    → ((paths ≡ []) × (choose_upgrade peer relay_fallback paths ≡ none))
      ⊎ ((path : PathScore) × (choose_upgrade peer relay_fallback paths
            ≡ some (record { peer = peer; preferred = path.addr; relay_fallback = relay_fallback }))
          × (front : List PathScore) × (back : List PathScore) × (paths ≡ front ++ (path ∷ back))
          × All (Precedes path) front
          × All (NotBehind path) back)
choose_upgrade_first peer relay_fallback paths =
    elim (choose_upgrade-FirstLeast peer relay_fallback paths) [
      | inl missing ↦ inl missing
      | inr (path, e, (front, back, at, ahead, behind)) ↦ inr (
        path,
        e,
        front,
        back,
        at,
        All-map (better-Precedes path) front ahead,
        All-map (better-NotBehind path) back behind,
      )
    ]
