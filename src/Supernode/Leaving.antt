-- ===== src/Supernode/Leaving.antt =====
-- What happens when the last member leaves a room.
use r2n.Common.{ℕ, ◌≡◌, refl, subst, Option, none, some, List, [], ◌∷◌, if_cases, ==_refl}
use r2n.Common.Maps.{Map, lookup, insert, values}
use r2n.Room.{Room, Member, remove_member}
use r2n.Supernode.{
  Env, Supernode, Outcome, returned, failed, panicked, stuck, send_all_then, record_send,
}
use r2n.Supernode.Frames.{ControlFrame}
use r2n.Supernode.Control.{handle_leave, leave_for, leave_known, close_empty, farewells, to_all}

module _ (env : Env) where
  farewells-none :
      (room : Room) (s : Supernode env) (o : Option Member)
      → room.members ≡ []
      → farewells env room s o ≡ []
  unfolding to_all values
  farewells-none room s none h = refl
  farewells-none room s (some member) h = rw h refl

  -- The last member that leaves.
  handle_leave-eq-stuck :
      (room_id addr node_id : ℕ) (s : Supernode env) (room : Room)
      → lookup addr s.addr_to_node ≡ some node_id
      → lookup room_id s.rooms ≡ some room
      → (remove_member node_id room).members ≡ []
      → handle_leave env room_id addr s
        ≡ stuck (record s { rooms = insert room_id (remove_member node_id room) s.rooms })
  unfolding handle_leave send_all_then
  handle_leave-eq-stuck room_id addr node_id s room h k last =
      let quiet =
        farewells-none (remove_member node_id room) s (lookup node_id room.members) last in
      rw (h, k, quiet, last, ==_refl room_id) refl

  abbrev NotStuck : Outcome env → Type 0
  NotStuck (returned s) = Unit
  NotStuck (failed s) = Unit
  NotStuck (panicked s) = Unit
  NotStuck (stuck s) = ⊥

  send_all_then-NotStuck :
      (frames : List (ℕ × ControlFrame)) (s : Supernode env) (next : Supernode env → Outcome env)
      → ((t : Supernode env) → NotStuck (next t))
      → NotStuck (send_all_then env frames s next)
  unfolding send_all_then
  send_all_then-NotStuck [] s next h = h s
  send_all_then-NotStuck ((addr, frame) ∷ frames) s next h =
      if_cases NotStuck (env.sends addr frame)
        (λ _. send_all_then-NotStuck frames (record_send env addr frame s) next h) (λ _. tt)

  leave_known-NotStuck :
      (room_id node_id : ℕ) (s : Supernode env) (room : Room) (first : ℕ × Member)
      (others : Map Member)
      → (remove_member node_id room).members ≡ first ∷ others
      → NotStuck (leave_known env room_id node_id s (some room))
  leave_known-NotStuck room_id node_id s room first others e =
      send_all_then-NotStuck _ _ (close_empty env room_id (remove_member node_id room))
        (λ t. rw e tt)

  abbrev LastLeaves : ℕ → ℕ → Supernode env → Type 0
  LastLeaves room_id addr s =
      (node_id : ℕ) × (room : Room) × (lookup addr s.addr_to_node ≡ some node_id)
      × (lookup room_id s.rooms ≡ some room)
      × ((remove_member node_id room).members ≡ [])

  -- When a node asks to leave a room and no member is left in it, the handler never returns: it
  -- waits for the lock on the room that it holds, and the room stays, without members, and with its
  -- subnet. Every other request to leave, be the address or the room unknown, or members left, does
  -- not wait for ever.
  pub handle_leave_stuck :
      (room_id addr : ℕ) (s : Supernode env)
      → ((node_id : ℕ) (room : Room)
          → lookup addr s.addr_to_node ≡ some node_id
          → lookup room_id s.rooms ≡ some room
          → (remove_member node_id room).members ≡ []
          → handle_leave env room_id addr s
            ≡ stuck (record s { rooms = insert room_id (remove_member node_id room) s.rooms }))
        × ((t : Supernode env)
            → handle_leave env room_id addr s ≡ stuck t
            → (node_id : ℕ) × (room : Room) × (lookup addr s.addr_to_node ≡ some node_id)
              × (lookup room_id s.rooms ≡ some room)
              × ((remove_member node_id room).members ≡ []))
  unfolding handle_leave
  handle_leave_stuck room_id addr s = (
    λ node_id room h k last. handle_leave-eq-stuck room_id addr node_id s room h k last,
    λ t e. known t (lookup addr s.addr_to_node) refl e,
  )
    where
      emptied :
          (t : Supernode env) (node_id : ℕ) (room : Room) (members : Map Member)
          → lookup addr s.addr_to_node ≡ some node_id
          → lookup room_id s.rooms ≡ some room
          → (remove_member node_id room).members ≡ members
          → leave_known env room_id node_id s (some room) ≡ stuck t
          → LastLeaves room_id addr s
      emptied t node_id room [] h k m e = (node_id, room, h, k, m)
      emptied t node_id room (first ∷ others) h k m e =
          elim (subst NotStuck e (leave_known-NotStuck room_id node_id s room first others m)) [ ]

      opened :
          (t : Supernode env) (node_id : ℕ) (o : Option Room)
          → lookup addr s.addr_to_node ≡ some node_id
          → lookup room_id s.rooms ≡ o
          → leave_known env room_id node_id s o ≡ stuck t
          → LastLeaves room_id addr s
      opened t node_id none h k e = elim (subst NotStuck e tt) [ ]
      opened t node_id (some room) h k e =
          emptied t node_id room (remove_member node_id room).members h k refl e

      known :
          (t : Supernode env) (o : Option ℕ)
          → lookup addr s.addr_to_node ≡ o
          → leave_for env room_id s o ≡ stuck t
          → LastLeaves room_id addr s
      known t none h e = elim (subst NotStuck e tt) [ ]
      known t (some node_id) h e = opened t node_id (lookup room_id s.rooms) h refl e
