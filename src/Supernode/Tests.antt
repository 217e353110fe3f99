-- ===== src/Supernode/Tests.antt =====
-- A supernode with one node and one room, and the theorems there.
use mathlib.Core.Logic.{inl}
use r2n.Common.{ℕ, ◌≡◌, refl, none, some, [], ◌∷◌, leb}
use r2n.Common.Maps.{lookup, insert, values}
use r2n.Room.{Room, owner_role, remove_member}
use r2n.Room.Tests.{pair_nets, wide_pool}
use r2n.Supernode.Frames.{query_rooms, cone, register_node, register_ok}
use r2n.Supernode.{
  Env, Supernode, NodeInfo, stuck, room_subnet_conflicts, send_all_then, to_others, handle_register,
  punches, try_send_all, parse_local_networks,
}
use r2n.Supernode.Control.{handle_control, handle_leave, handle_join, introductions}
use r2n.Supernode.Leaving.{handle_leave_stuck}
use r2n.Supernode.Strangers.{
  OnlyAnswers, state_of, handle_control-OnlyAnswers, handle_join-OnlyAnswers,
}

abbrev pub env : Env
env = record {
  nets = pair_nets;
  sends = λ addr frame. leb addr 1000;
  encode_invite = λ invite. invite.token;
  peer_name = λ n. "Peer";
  restored_name = λ n. "Restored";
}

abbrev pub node : NodeInfo env
node = record {
  node_id = 7;
  addr = 50;
  nat_type = cone;
  external_addr = none;
  public_key = 0;
  candidates = [];
  nickname = "seven";
  local_networks = [];
  last_seen = 0;
}

abbrev pub room : Room
room = record {
  room_id = 1;
  name = "room";
  owner = 7;
  virtual_cidr = "192.168.7.0/24";
  join_token = "secret";
  members =
      (7, record { node_id = 7; virtual_ip = 3232237313; nickname = "seven"; role = owner_role })
      ∷ [];
  ip_leases = (7, 3232237313) ∷ [];
}

abbrev pub state : Supernode env
state = record {
  nodes = (7, node) ∷ [];
  addr_to_node = (50, 7) ∷ [];
  rooms = (1, room) ∷ [];
  address_pool = wide_pool;
  peers = [];
  public_addr = some "supernode";
  sent = [];
}

handle_leave_stuck_example :
    ((node_id : ℕ) (r : Room)
      → lookup 50 state.addr_to_node ≡ some node_id
      → lookup 1 state.rooms ≡ some r
      → (remove_member node_id r).members ≡ []
      → handle_leave env 1 50 state
        ≡ stuck (record state { rooms = insert 1 (remove_member node_id r) state.rooms }))
    × ((t : Supernode env)
        → handle_leave env 1 50 state ≡ stuck t
        → (node_id : ℕ) × (r : Room) × (lookup 50 state.addr_to_node ≡ some node_id)
          × (lookup 1 state.rooms ≡ some r)
          × ((remove_member node_id r).members ≡ []))
handle_leave_stuck_example = handle_leave_stuck env 1 50 state

handle_control-OnlyAnswers_example :
    OnlyAnswers env 60 state (state_of env (handle_control env query_rooms 0 9 "token" 60 state))
unfolding lookup
handle_control-OnlyAnswers_example =
    handle_control-OnlyAnswers env query_rooms 0 9 "token" 60 state refl refl

handle_join-OnlyAnswers_example :
    OnlyAnswers env 50 state (state_of env (handle_join env 1 (some "guess") none 50 state))
unfolding lookup
handle_join-OnlyAnswers_example =
    handle_join-OnlyAnswers env 1 (some "guess") none 50 7 state room refl refl (inl refl)

-- The owner asks to join the room that it is in: an acceptance and the list of peers.
abbrev joined : Supernode env
joined = state_of env (handle_join env 1 (some "secret") none 50 state)

joined_again : joined.rooms ≡ state.rooms
unfolding handle_join lookup insert values room_subnet_conflicts send_all_then to_others
    introductions
joined_again = refl

-- A second node registers: it is known at its address and gets one answer.
abbrev registered : Supernode env
registered = state_of env (
    handle_control env (register_node 8 cone none 5 [] "eight" ("192.168.0.0/16" ∷ "none" ∷ [])) 3 9
      "token" 51 state)

registered_answer : registered.sent ≡ (51, register_ok) ∷ []
unfolding handle_control handle_register punches try_send_all parse_local_networks values insert
    lookup to_others
registered_answer = refl
