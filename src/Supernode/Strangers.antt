-- ===== src/Supernode/Strangers.antt =====
-- What a node can do that is not registered, or that has not the room's token.
use Prim.Native.String.{String}
use text.Mathlib.Text.{◌==◌ as str_eq}
use r2n.Common.{
  ℕ, ◌≡◌, ◌⊎◌, inl, inr, refl, Bool, true, false, not, Option, none, some, [], ◌∷◌, ◌++◌, if_cases,
}
use r2n.Common.Maps.{lookup}
use r2n.Room.{Room}
use r2n.Supernode.Frames.{
  ControlFrame, hello, create_room, room_created, join_room, join_accept, join_reject,
  register_node, register_ok, peer_list, peer_update, punch_request, punch_candidate, relay_offer,
  relay_accept, heartbeat, leave_room, handshake, error_frame, query_rooms, rooms_list,
}
use r2n.Supernode.{
  Env, Supernode, Outcome, returned, failed, panicked, stuck, send_then, try_send, record_send,
  handle_create, networks_of, room_subnet_conflicts,
}
use r2n.Supernode.Control.{handle_control, handle_join, handle_leave, or_empty}

abbrev pub is_register : ControlFrame → Bool
is_register (register_node a b c d e f g) = true
is_register frame = false

module _ (env : Env) where
  abbrev pub state_of : Outcome env → Supernode env
  state_of (returned s) = s
  state_of (failed s) = s
  state_of (panicked s) = s
  state_of (stuck s) = s

  -- The tables are as before, and at most one frame was sent, to the address.
  pub record OnlyAnswers (addr : ℕ) (s t : Supernode env) : Type 0 where
    pub nodes : t.nodes ≡ s.nodes
    pub addr_to_node : t.addr_to_node ≡ s.addr_to_node
    pub rooms : t.rooms ≡ s.rooms
    pub address_pool : t.address_pool ≡ s.address_pool
    pub sent :
        (t.sent ≡ s.sent) ⊎ ((frame : ControlFrame) × (t.sent ≡ s.sent ++ ((addr, frame) ∷ [])))

  unchanged : (addr : ℕ) (s : Supernode env) → OnlyAnswers addr s s
  unchanged addr s = record {
    nodes = refl;
    addr_to_node = refl;
    rooms = refl;
    address_pool = refl;
    sent = inl refl;
  }

  answered :
      (addr : ℕ) (frame : ControlFrame) (s : Supernode env)
      → OnlyAnswers addr s (record_send env addr frame s)
  answered addr frame s = record {
    nodes = refl;
    addr_to_node = refl;
    rooms = refl;
    address_pool = refl;
    sent = inr (frame, refl);
  }

  send_then-OnlyAnswers :
      (addr : ℕ) (frame : ControlFrame) (s : Supernode env)
      → OnlyAnswers addr s (state_of (send_then env addr frame s (λ t. returned t)))
  send_then-OnlyAnswers addr frame s =
      if_cases (λ (o : Outcome env). OnlyAnswers addr s (state_of o)) (env.sends addr frame)
        (λ _. answered addr frame s) (λ _. unchanged addr s)

  try_send-OnlyAnswers :
      (addr : ℕ) (frame : ControlFrame) (s : Supernode env)
      → OnlyAnswers addr s (try_send env addr frame s)
  try_send-OnlyAnswers addr frame s =
      if_cases (OnlyAnswers addr s) (env.sends addr frame) (λ _. answered addr frame s)
        (λ _. unchanged addr s)

  -- A control frame from an address that is not registered, other than a registration, changes no
  -- table, and at most one frame is sent for it, back to that address.
  pub handle_control-OnlyAnswers :
      (frame : ControlFrame) (now fresh_id : ℕ) (fresh_token : String) (addr : ℕ)
      (s : Supernode env)
      → lookup addr s.addr_to_node ≡ none
      → is_register frame ≡ false
      → OnlyAnswers addr s (state_of (handle_control env frame now fresh_id fresh_token addr s))
  unfolding handle_control handle_create handle_join handle_leave
  handle_control-OnlyAnswers (register_node a b c d e f g) now fresh_id fresh_token addr s h k =
      cc k
  handle_control-OnlyAnswers (create_room name) now fresh_id fresh_token addr s h k =
      rw h (send_then-OnlyAnswers addr (error_frame 400 "node not registered") s)
  handle_control-OnlyAnswers (join_room room_id token room_name) now fresh_id fresh_token addr s h
        k =
      rw h (send_then-OnlyAnswers addr (join_reject "node not registered") s)
  handle_control-OnlyAnswers (leave_room room_id) now fresh_id fresh_token addr s h k =
      rw h (unchanged addr s)
  handle_control-OnlyAnswers heartbeat now fresh_id fresh_token addr s h k =
      try_send-OnlyAnswers addr heartbeat s
  handle_control-OnlyAnswers query_rooms now fresh_id fresh_token addr s h k =
      try_send-OnlyAnswers addr _ s
  handle_control-OnlyAnswers (hello a b) now fresh_id fresh_token addr s h k = unchanged addr s
  handle_control-OnlyAnswers (room_created a b c d) now fresh_id fresh_token addr s h k =
      unchanged addr s
  handle_control-OnlyAnswers (join_accept a b c d) now fresh_id fresh_token addr s h k =
      unchanged addr s
  handle_control-OnlyAnswers (join_reject a) now fresh_id fresh_token addr s h k = unchanged addr s
  handle_control-OnlyAnswers register_ok now fresh_id fresh_token addr s h k = unchanged addr s
  handle_control-OnlyAnswers (peer_list a) now fresh_id fresh_token addr s h k = unchanged addr s
  handle_control-OnlyAnswers (peer_update a b) now fresh_id fresh_token addr s h k =
      unchanged addr s
  handle_control-OnlyAnswers (punch_request a b) now fresh_id fresh_token addr s h k =
      unchanged addr s
  handle_control-OnlyAnswers (punch_candidate a b) now fresh_id fresh_token addr s h k =
      unchanged addr s
  handle_control-OnlyAnswers (relay_offer a) now fresh_id fresh_token addr s h k = unchanged addr s
  handle_control-OnlyAnswers (relay_accept a) now fresh_id fresh_token addr s h k = unchanged addr s
  handle_control-OnlyAnswers (handshake a b) now fresh_id fresh_token addr s h k = unchanged addr s
  handle_control-OnlyAnswers (error_frame a b) now fresh_id fresh_token addr s h k =
      unchanged addr s
  handle_control-OnlyAnswers (rooms_list a) now fresh_id fresh_token addr s h k = unchanged addr s

  -- A node that asks to join a room that is open, without the room's token or with a local network
  -- that meets the room's, changes no table, and at most one frame is sent for it, back to it.
  pub handle_join-OnlyAnswers :
      (room_id : ℕ) (token room_name : Option String) (addr node_id : ℕ) (s : Supernode env)
      (room : Room)
      → lookup addr s.addr_to_node ≡ some node_id
      → lookup room_id s.rooms ≡ some room
      → (str_eq room.join_token (or_empty token) ≡ false)
        ⊎ (room_subnet_conflicts env room.virtual_cidr (networks_of env (lookup node_id s.nodes))
            ≡ true)
      → OnlyAnswers addr s (state_of (handle_join env room_id token room_name addr s))
  unfolding handle_join
  handle_join-OnlyAnswers room_id token room_name addr node_id s room h k (inl wrong) =
      rw (h, k, wrong) (send_then-OnlyAnswers addr (join_reject "invalid invite token") s)
  handle_join-OnlyAnswers room_id token room_name addr node_id s room h k (inr conflict) =
      rw (h, k, conflict)
        (if_cases (λ (o : Outcome env). OnlyAnswers addr s (state_of o))
          (not (str_eq room.join_token (or_empty token)))
          (λ _. send_then-OnlyAnswers addr (join_reject "invalid invite token") s)
          (λ _.
            send_then-OnlyAnswers addr
              (join_reject "room subnet conflicts with a local network on this device") s))
