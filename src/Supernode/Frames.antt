-- ===== src/Supernode/Frames.antt =====
-- crates/r2n-proto/src/lib.rs and crates/r2n-common/src/lib.rs: the control frames and what they
-- hold. Ids, keys and addresses are numbers.
use Prim.Native.String.{String}
use r2n.Common.{ℕ, Option, List}
use r2n.Dataplane.Table.{PeerInfo}

pub data NatType : Type 0 where
  open_nat cone symmetric unknown : NatType

pub data CandidateKind : Type 0 where
  host_lan host_ipv6 server_reflexive port_predicted relay : CandidateKind

pub data CandidateSource : Type 0 where
  local_interface stun_primary stun_secondary port_mapping : CandidateSource
  peer_reflexive port_prediction relay_fallback : CandidateSource

pub record Candidate : Type 0 where
  pub kind : CandidateKind
  pub source : CandidateSource
  pub addr : ℕ
  pub priority : ℕ
  pub rtt_hint_ms : Option ℕ

pub record RoomDescription : Type 0 where
  pub room_id : ℕ
  pub name : String
  pub member_count : ℕ

pub data PeerAction : Type 0 where
  add_peer remove_peer update_peer : PeerAction

pub data ControlFrame : Type 0 where
  hello : ℕ → ℕ → ControlFrame
  create_room : String → ControlFrame
  -- The room, the assigned address, the network and the invite code.
  room_created : ℕ → ℕ → String → String → ControlFrame
  -- The room, the token and the room's name.
  join_room : ℕ → Option String → Option String → ControlFrame
  join_accept : ℕ → ℕ → String → Option String → ControlFrame
  join_reject : String → ControlFrame
  -- The node, its NAT, external address, key, candidates, nickname and local networks.
  register_node : ℕ → NatType → Option ℕ → ℕ → List Candidate → String → List String → ControlFrame
  register_ok : ControlFrame
  peer_list : List PeerInfo → ControlFrame
  peer_update : PeerInfo → PeerAction → ControlFrame
  punch_request punch_candidate : ℕ → List Candidate → ControlFrame
  relay_offer : ℕ → ControlFrame
  relay_accept : String → ControlFrame
  heartbeat : ControlFrame
  leave_room : ℕ → ControlFrame
  handshake : ℕ → List ℕ → ControlFrame
  error_frame : ℕ → String → ControlFrame
  query_rooms : ControlFrame
  rooms_list : List RoomDescription → ControlFrame
