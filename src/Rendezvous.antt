-- ===== src/Rendezvous.antt =====
-- crates/r2n-rendezvous/src/lib.rs: the pairs of candidates of two peers, best first, and the choice
-- of a path. Addresses are numbers, priorities u32, and durations nanoseconds. A u32 wraps, as in a
-- release build.
pub mod Pairs
pub mod Upgrade
mod Tests
use r2n.Common.{
  ℕ, zero, suc, ◌+◌, ◌*◌, ◌%◌, ◌^◌, ◌≡◌, Bool, true, false, not, ◌&&◌, ◌||◌, Option, none, some,
  List, [], ◌∷◌, ◌++◌, map, ltb, leb, if◌then◌else◌,
}
use r2n.Common.Sorting.{sort_by_reverse}
use r2n.Supernode.Frames.{CandidateKind, host_lan, host_ipv6, server_reflexive, relay, Candidate}

pub record CandidatePair : Type 0 where
  pub local : Candidate
  pub remote : Candidate
  pub score : ℕ

abbrev pub bonus : CandidateKind → CandidateKind → ℕ
bonus host_lan host_lan = 40
bonus host_ipv6 host_ipv6 = 30
bonus server_reflexive server_reflexive = 20
bonus relay relay = 0
bonus _ _ = 10

abbrev pub locality_bonus : Candidate → Candidate → ℕ
locality_bonus left right = bonus left.kind right.kind

abbrev pub pair_score : Candidate → Candidate → ℕ
pair_score left right = (left.priority + right.priority + locality_bonus left right) % 2 ^ 32

abbrev pub pair : Candidate → Candidate → CandidatePair
pair left right = record { local = left; remote = right; score = pair_score left right }

pub all_pairs : List Candidate → List Candidate → List CandidatePair
all_pairs [] remote = []
all_pairs (left ∷ local) remote = map (λ right. pair left right) remote ++ all_pairs local remote

pub build_candidate_pairs : List Candidate → List Candidate → List CandidatePair
build_candidate_pairs local remote =
    sort_by_reverse (λ (p : CandidatePair). p.score) (all_pairs local remote)

pub record PathScore : Type 0 where
  pub addr : ℕ
  pub rtt : Option ℕ
  pub loss_basis_points : ℕ
  pub is_relay : Bool

pub record PathUpgrade : Type 0 where
  pub peer : ℕ
  pub preferred : ℕ
  pub relay_fallback : Option ℕ

-- `path.rtt.unwrap_or(Duration::from_millis(999))`.
abbrev pub rtt_or : Option ℕ → ℕ
rtt_or none = 999_000_000
rtt_or (some d) = d

-- Whether the key (relay, rtt) of the one is less than that of the other.
abbrev pub key_less : Bool → ℕ → Bool → ℕ → Bool
key_less false d true e = true
key_less true d false e = false
key_less false d false e = ltb d e
key_less true d true e = ltb d e

abbrev pub better : PathScore → PathScore → Bool
better p q = key_less p.is_relay (rtt_or p.rtt) q.is_relay (rtt_or q.rtt)

-- `min_by_key`, which keeps the first of several least ones; `best` is the least so far.
pub least : PathScore → List PathScore → PathScore
least best [] = best
least best (p ∷ ps) =
    let taken = least p ps in let kept = least best ps in if better p best then taken else kept

abbrev pub min_path : List PathScore → Option PathScore
min_path [] = none
min_path (p ∷ ps) = some (least p ps)

abbrev pub upgrade_to : ℕ → Option ℕ → Option PathScore → Option PathUpgrade
upgrade_to peer relay_fallback none = none
upgrade_to peer relay_fallback (some path) =
    some (record { peer = peer; preferred = path.addr; relay_fallback = relay_fallback })

pub choose_upgrade : ℕ → Option ℕ → List PathScore → Option PathUpgrade
choose_upgrade peer relay_fallback scored_paths =
    upgrade_to peer relay_fallback (min_path scored_paths)
