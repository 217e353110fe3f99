-- ===== src/Rendezvous/Tests.antt =====
-- The theorems at the candidates of two peers.
use r2n.Common.{
  ℕ, ◌≡◌, ◌⊎◌, refl, true, false, none, some, Bool, ◌&&◌, ◌*◌, List, [], ◌∷◌, ◌++◌, map, All,
}
use r2n.Common.Sorting.{place, sort_by_reverse, Descends}
use r2n.Supernode.Frames.{Candidate, host_lan, server_reflexive, local_interface, stun_primary}
use r2n.Rendezvous.{
  CandidatePair, all_pairs, build_candidate_pairs, PathScore, least, choose_upgrade,
}
use r2n.Rendezvous.Pairs.{score_of, IsScored, count_if, build_candidate_pairs_complete}
use r2n.Rendezvous.Upgrade.{Precedes, NotBehind, choose_upgrade_first}

abbrev lan : ℕ → Candidate
lan addr = record {
  kind = host_lan;
  source = local_interface;
  addr = addr;
  priority = 100;
  rtt_hint_ms = none;
}

abbrev reflexive : ℕ → Candidate
reflexive addr = record {
  kind = server_reflexive;
  source = stun_primary;
  addr = addr;
  priority = 80;
  rtt_hint_ms = none;
}

-- The pair in the local network is the first.
scores :
    map
      (λ (p : CandidatePair). p.score)
      (build_candidate_pairs (reflexive 1 ∷ lan 2 ∷ []) (lan 3 ∷ reflexive 4 ∷ []))
    ≡ 240 ∷ 190 ∷ 190 ∷ 180 ∷ []
unfolding build_candidate_pairs sort_by_reverse place all_pairs
scores = refl

build_candidate_pairs_complete_example :
    let pairs = build_candidate_pairs (reflexive 1 ∷ lan 2 ∷ []) (lan 3 ∷ []) in
    Descends score_of pairs
    × All IsScored pairs
    × ((f g : Candidate → Bool)
        → count_if (λ (p : CandidatePair). f p.local && g p.remote) pairs
          ≡ count_if f (reflexive 1 ∷ lan 2 ∷ []) * count_if g (lan 3 ∷ []))
build_candidate_pairs_complete_example =
    build_candidate_pairs_complete (reflexive 1 ∷ lan 2 ∷ []) (lan 3 ∷ [])

abbrev relayed : PathScore
relayed = record { addr = 10; rtt = some 5_000_000; loss_basis_points = 0; is_relay = true }

abbrev straight : PathScore
straight = record { addr = 20; rtt = none; loss_basis_points = 0; is_relay = false }

chosen :
    choose_upgrade 7 none (relayed ∷ straight ∷ [])
    ≡ some (record { peer = 7; preferred = 20; relay_fallback = none })
unfolding choose_upgrade least
chosen = refl

choose_upgrade_first_example :
    ((relayed ∷ straight ∷ [] ≡ []) × (choose_upgrade 7 none (relayed ∷ straight ∷ []) ≡ none))
    ⊎ ((path : PathScore) × (choose_upgrade 7 none (relayed ∷ straight ∷ [])
          ≡ some (record { peer = 7; preferred = path.addr; relay_fallback = none }))
        × (front : List PathScore) × (back : List PathScore) × (relayed ∷ straight ∷ []
            ≡ front ++ (path ∷ back))
        × All (Precedes path) front
        × All (NotBehind path) back)
choose_upgrade_first_example = choose_upgrade_first 7 none (relayed ∷ straight ∷ [])
