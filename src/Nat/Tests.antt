-- ===== src/Nat/Tests.antt =====
-- Answers of STUN servers, and the theorem at them.
use r2n.Common.{ℕ, ◌≤◌, ◌≡◌, ◌⊎◌, refl, true, false, none, some, List, [], ◌∷◌, map, any, All, ◌==◌}
use r2n.Common.Sorting.{place, sort_by_reverse}
use r2n.Supernode.Frames.{
  Candidate, cone, symmetric, unknown, host_lan, server_reflexive, local_interface, port_mapping,
}
use r2n.Nat.{
  port, ip, socket_addr, is_symmetric, all_same, infer_nat_type, place_port, sort_ports, all_deltas,
  infer_port_delta_pattern, place_answer, sort_answers, forward, around, predict_from_fingerprint,
  fingerprint, collect_candidates, merge_mapped_candidate, preferred_external_addr, without_mapping,
  dedup_behind, candidate, nat_pmp,
}
use r2n.Nat.Reaching.{Reaches}
use r2n.Nat.Predicting.{IsNear, predict_from_fingerprint-fingerprint}

abbrev at : ℕ → ℕ
at p = socket_addr 0x01020304 p

-- Two servers see two ports; the slower one answers first.
abbrev answers : List (ℕ × ℕ)
answers = (at 5002, 30) ∷ (at 5000, 20) ∷ []

inferred : (fingerprint answers 4000).public_addrs ≡ at 5000 ∷ at 5002 ∷ []
unfolding fingerprint sort_answers place_answer
inferred = refl

types :
    (infer_nat_type (at 1 ∷ []) ≡ unknown)
    × (infer_nat_type (at 1 ∷ at 1 ∷ []) ≡ cone)
    × (infer_nat_type (at 1 ∷ at 2 ∷ []) ≡ symmetric)
unfolding infer_nat_type all_same
types = (refl, refl, refl)

pattern_of_ports : infer_port_delta_pattern (at 5004 ∷ at 5000 ∷ at 5002 ∷ []) ≡ some 2
unfolding infer_port_delta_pattern sort_ports place_port all_deltas
pattern_of_ports = refl

-- The highest ports stop the prediction.
near_the_end : forward 8 1 7 65530 2 ≡ map (λ (p : ℕ). socket_addr 7 p) (65532 ∷ 65534 ∷ [])
unfolding forward
near_the_end = refl

near_the_start :
    around 17 0 7 3 []
    ≡ map (λ (p : ℕ). socket_addr 7 p) (1 ∷ 2 ∷ 4 ∷ 5 ∷ 6 ∷ 7 ∷ 8 ∷ 9 ∷ 10 ∷ 11 ∷ [])
unfolding around
near_the_start = refl

abbrev lan : Candidate
lan = candidate host_lan local_interface (at 4000) 100

abbrev old_mapping : Candidate
old_mapping = candidate server_reflexive port_mapping (at 1) 90

new_mapping :
    merge_mapped_candidate (old_mapping ∷ lan ∷ []) (record {
      acquired = true;
      protocol = some nat_pmp;
      external_addr = some (at 2);
      lease_remaining = none;
    })
    ≡ lan ∷ candidate server_reflexive port_mapping (at 2) 90 ∷ []
unfolding merge_mapped_candidate without_mapping dedup_behind sort_by_reverse place
new_mapping = refl

preferred :
    preferred_external_addr (fingerprint answers 4000) (lan ∷ old_mapping ∷ []) ≡ some (at 1)
unfolding preferred_external_addr
preferred = refl

collected :
    map
      (λ (c : Candidate). c.addr)
      (collect_candidates (fingerprint [] 4000) 4000 ((false, 5) ∷ []))
    ≡ socket_addr 5 4000 ∷ []
unfolding collect_candidates fingerprint sort_answers infer_nat_type predict_from_fingerprint
    dedup_behind sort_by_reverse place
collected = refl

predict_from_fingerprint-fingerprint_example :
    let fp = fingerprint answers 4000 in
    ((predict_from_fingerprint fp ≡ none)
      × ((is_symmetric fp.nat_type ≡ false) ⊎ (fp.public_addrs ≡ [])))
    ⊎ ((last : ℕ) × (predicted : List ℕ) × (is_symmetric fp.nat_type ≡ true)
        × (predict_from_fingerprint fp ≡ some predicted)
        × (any (λ (a : ℕ). a == last) fp.public_addrs ≡ true)
        × All (λ (a : ℕ). port a ≤ port last) fp.public_addrs
        × All (IsNear (ip last) (port last)) predicted
        × Reaches last predicted)
predict_from_fingerprint-fingerprint_example = predict_from_fingerprint-fingerprint answers 4000
