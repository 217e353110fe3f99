-- ===== src/Nat.antt =====
-- crates/r2n-nat/src/lib.rs: what is inferred of a NAT from the addresses that STUN servers see, and
-- the list of candidates. An address is a number: the IP's, then 16 bits of port. The interfaces and
-- the answers of the servers are arguments. A port delta is a natural number, since only 1 to 16 is
-- ever inferred.
pub mod Reaching
pub mod Predicting
mod Tests
use r2n.Common.{
  ℕ, zero, suc, ◌+◌, ◌-◌, ◌*◌, ◌/◌, ◌%◌, ◌^◌, ◌≡◌, Bool, true, false, not, ◌&&◌, ◌||◌, Option, none,
  some, List, [], ◌∷◌, ◌++◌, map, take, length, any, ltb, leb, ◌==◌, if◌then◌else◌,
}
use r2n.Common.Sorting.{sort_by_reverse}
use r2n.Supernode.Frames.{
  NatType, cone, symmetric, unknown, open_nat, CandidateKind, host_lan, host_ipv6, server_reflexive,
  port_predicted, relay, CandidateSource, local_interface, stun_primary, stun_secondary,
  port_mapping, peer_reflexive, port_prediction, relay_fallback, Candidate,
}

abbrev pub port : ℕ → ℕ
port addr = addr % 2 ^ 16

abbrev pub ip : ℕ → ℕ
ip addr = addr / 2 ^ 16

-- `SocketAddr::new`.
abbrev pub socket_addr : ℕ → ℕ → ℕ
socket_addr a p = a * 2 ^ 16 + p

pub record NatFingerprint : Type 0 where
  pub nat_type : NatType
  pub public_addrs : List ℕ
  pub endpoint_independent_mapping : Bool
  pub port_preserving : Bool
  pub port_delta_pattern : Option ℕ
  pub binding_lifetime : ℕ
  pub hairpin_supported : Bool
  pub udp_restricted : Bool

-- `windows(2).all(..)` behind `first`.
pub all_same : ℕ → List ℕ → Bool
all_same first [] = true
all_same first (a ∷ addrs) = (first == a) && all_same a addrs

pub infer_nat_type : List ℕ → NatType
infer_nat_type [] = unknown
infer_nat_type (a ∷ []) = unknown
infer_nat_type (a ∷ b ∷ addrs) = if all_same a (b ∷ addrs) then cone else symmetric

-- The ports in rising order.
pub place_port : ℕ → List ℕ → List ℕ
place_port p [] = p ∷ []
place_port p (q ∷ qs) = let rest = place_port p qs in if ltb q p then q ∷ rest else p ∷ q ∷ qs

pub sort_ports : List ℕ → List ℕ
sort_ports [] = []
sort_ports (p ∷ ps) = place_port p (sort_ports ps)

-- Whether each of the sorted ports is `delta` above the one before.
pub all_deltas : ℕ → ℕ → List ℕ → Bool
all_deltas delta first [] = true
all_deltas delta first (p ∷ ports) = (p - first == delta) && all_deltas delta p ports

abbrev pub delta_of : List ℕ → Option ℕ
delta_of (p ∷ q ∷ ports) =
    let first_delta = q - p in
    if (leb 1 first_delta && leb first_delta 16) && all_deltas first_delta p (q ∷ ports)
    then some first_delta
    else none
delta_of _ = none

pub infer_port_delta_pattern : List ℕ → Option ℕ
infer_port_delta_pattern public_addrs = delta_of (sort_ports (map (λ (a : ℕ). port a) public_addrs))

-- `max_by_key(|a| a.port())`, which keeps the last of several greatest ones.
pub max_by_port : ℕ → List ℕ → ℕ
max_by_port best [] = best
max_by_port best (a ∷ addrs) =
    let taken = max_by_port a addrs in
    let kept = max_by_port best addrs in if leb (port best) (port a) then taken else kept

abbrev pub is_port : ℕ → Bool
is_port p = ltb 0 p && leb p 65535

-- The next ports by the delta, from the `i`-th on, with `n` to go.
pub forward : ℕ → ℕ → ℕ → ℕ → ℕ → List ℕ
forward zero i addr_ip max_port delta = []
forward (suc n) i addr_ip max_port delta =
    let rest = forward n (suc i) addr_ip max_port delta in
    let p = max_port + delta * i in if is_port p then socket_addr addr_ip p ∷ rest else rest

-- The ports from `max_port - 8` on, but `max_port`, that are not there; `k` is 8 more than the
-- offset, and there are `n` to go.
pub around : ℕ → ℕ → ℕ → ℕ → List ℕ → List ℕ
around zero k addr_ip max_port predicted = predicted
around (suc n) k addr_ip max_port predicted =
    let p = max_port + k - 8 in
    let addr = socket_addr addr_ip p in
    around n (suc k) addr_ip max_port (
      if not (k == 8)
        && (ltb 8 (max_port + k) && leb p 65535)
        && not (any (λ (a : ℕ). a == addr) predicted)
      then predicted ++ (addr ∷ [])
      else predicted)

abbrev pub delta_or_one : Option ℕ → ℕ
delta_or_one none = 1
delta_or_one (some d) = d

abbrev pub predict : Option ℕ → ℕ → List ℕ
predict delta last_addr =
    around 17 0 (ip last_addr) (port last_addr)
      (forward 8 1 (ip last_addr) (port last_addr) (delta_or_one delta))

abbrev pub predict_symmetric : Option ℕ → List ℕ → Option (List ℕ)
predict_symmetric delta [] = none
predict_symmetric delta (a ∷ addrs) = some (predict delta (max_by_port a addrs))

abbrev pub is_symmetric : NatType → Bool
is_symmetric symmetric = true
is_symmetric _ = false

pub predict_from_fingerprint : NatFingerprint → Option (List ℕ)
predict_from_fingerprint fp =
    if is_symmetric fp.nat_type
    then predict_symmetric fp.port_delta_pattern fp.public_addrs
    else none

abbrev pub first_addr : List ℕ → Option ℕ
first_addr [] = none
first_addr (a ∷ addrs) = some a

abbrev pub all_first : Option ℕ → List ℕ → Bool
all_first none addrs = true
all_first (some first) addrs = not (any (λ (a : ℕ). not (a == first)) addrs)

abbrev pub preserves : ℕ → Option ℕ → Bool
preserves local_port none = false
preserves local_port (some a) = port a == local_port

-- The answers of the servers, an address and a round trip each, in the order of the round trips.
pub place_answer : ℕ × ℕ → List (ℕ × ℕ) → List (ℕ × ℕ)
place_answer p [] = p ∷ []
place_answer p (q ∷ qs) =
    let rest = place_answer p qs in if ltb q.1 p.1 then q ∷ rest else p ∷ q ∷ qs

pub sort_answers : List (ℕ × ℕ) → List (ℕ × ℕ)
sort_answers [] = []
sort_answers (p ∷ ps) = place_answer p (sort_answers ps)

-- What `fingerprint` makes of the answers: the five fastest servers are used.
pub fingerprint : List (ℕ × ℕ) → ℕ → NatFingerprint
fingerprint answers local_port =
    let public_addrs = map (λ (a : ℕ × ℕ). a.0) (take 5 (sort_answers answers)) in
    record {
      nat_type = infer_nat_type public_addrs;
      public_addrs = public_addrs;
      endpoint_independent_mapping = all_first (first_addr public_addrs) public_addrs;
      port_preserving = preserves local_port (first_addr public_addrs);
      port_delta_pattern = infer_port_delta_pattern public_addrs;
      binding_lifetime = 30_000_000_000;
      hairpin_supported = false;
      udp_restricted = false;
    }

-- The codes by which two kinds or two sources are compared.
abbrev pub kind_code : CandidateKind → ℕ
kind_code host_lan = 0
kind_code host_ipv6 = 1
kind_code server_reflexive = 2
kind_code port_predicted = 3
kind_code relay = 4

abbrev pub is_mapping : CandidateSource → Bool
is_mapping port_mapping = true
is_mapping _ = false

abbrev pub same_candidate : Candidate → Candidate → Bool
same_candidate left right =
    (left.addr == right.addr) && (kind_code left.kind == kind_code right.kind)

-- `dedup_by`: what is behind `last`, which is kept.
pub dedup_behind : Candidate → List Candidate → List Candidate
dedup_behind last [] = []
dedup_behind last (c ∷ cs) =
    let skipped = dedup_behind last cs in
    let kept = dedup_behind c cs in if same_candidate c last then skipped else c ∷ kept

abbrev pub dedup : List Candidate → List Candidate
dedup [] = []
dedup (c ∷ cs) = c ∷ dedup_behind c cs

abbrev pub sorted : List Candidate → List Candidate
sorted candidates = dedup (sort_by_reverse (λ (c : Candidate). c.priority) candidates)

abbrev pub candidate : CandidateKind → CandidateSource → ℕ → ℕ → Candidate
candidate kind source addr priority = record {
  kind = kind;
  source = source;
  addr = addr;
  priority = priority;
  rtt_hint_ms = none;
}

abbrev pub predicted_or_none : Option (List ℕ) → List ℕ
predicted_or_none none = []
predicted_or_none (some addrs) = addrs

-- The interfaces' addresses but the loopbacks, each with whether it is an IPv6 one.
pub collect_candidates : NatFingerprint → ℕ → List (Bool × ℕ) → List Candidate
collect_candidates fp local_port ifaces = sorted (
    map
      (λ (i : Bool × ℕ).
        candidate (if i.0 then host_ipv6 else host_lan) local_interface (socket_addr i.1 local_port)
          100)
      ifaces
    ++ (map (λ (a : ℕ). candidate server_reflexive stun_primary a 80) fp.public_addrs
        ++ map (λ (a : ℕ). candidate port_predicted port_prediction a 50)
            (predicted_or_none (predict_from_fingerprint fp))))

pub without_mapping : List Candidate → List Candidate
without_mapping [] = []
without_mapping (c ∷ cs) =
    let rest = without_mapping cs in if is_mapping c.source then rest else c ∷ rest

abbrev pub mapped : Option Candidate → List Candidate
mapped none = []
mapped (some c) = c ∷ []

pub data PortMappingProtocol : Type 0 where
  upnp_igd nat_pmp pcp : PortMappingProtocol

pub record PortMappingSnapshot : Type 0 where
  pub acquired : Bool
  pub protocol : Option PortMappingProtocol
  pub external_addr : Option ℕ
  pub lease_remaining : Option ℕ

abbrev pub mapping_of : Option ℕ → Option Candidate
mapping_of none = none
mapping_of (some addr) = some (candidate server_reflexive port_mapping addr 90)

abbrev pub as_candidate : PortMappingSnapshot → Option Candidate
as_candidate snapshot = if not snapshot.acquired then none else mapping_of snapshot.external_addr

pub merge_mapped_candidate : List Candidate → PortMappingSnapshot → List Candidate
merge_mapped_candidate base_candidates snapshot =
    sorted (without_mapping base_candidates ++ mapped (as_candidate snapshot))

pub preferred_external_addr : NatFingerprint → List Candidate → Option ℕ
preferred_external_addr fp [] = first_addr fp.public_addrs
preferred_external_addr fp (c ∷ cs) =
    if is_mapping c.source then some c.addr else preferred_external_addr fp cs
