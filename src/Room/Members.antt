-- ===== src/Room/Members.antt =====
-- Members and their addresses.
use Prim.Native.String.{String}
use r2n.Common.{ℕ, ◌<◌, ◌≡◌, refl, ap, ◌∙◌, some, List, [], ◌∷◌, Result, ok, err}
use r2n.Common.Maps.{lookup, All-lookup}
use r2n.Room.Nets.{Ipv4Nets}
use r2n.Room.Errors.{RoomError}
use r2n.Room.{Room, Member, MemberRole, new, remove_member, add_or_reuse_member}
use r2n.Room.Leasing.{
  Leased, IsLeased, new-IsLeased, remove_member-IsLeased, add_or_reuse_member-IsLeased,
}

module _ (nets : Ipv4Nets) where
  open nets use {Ipv4Net, network, broadcast}

  -- A node joins, or leaves; a join that fails changes nothing.
  pub data Change : Type 0 where
    joins : ℕ → String → MemberRole → Change
    leaves : ℕ → Change

  abbrev pub joined : Room → Result RoomError (ℕ × Room) → Room
  joined room (err e) = room
  joined room (ok (ip, after)) = after

  unfoldable pub change : Room → Change → Room
  change room (joins node_id nickname role) =
      joined room (add_or_reuse_member nets node_id nickname role room)
  change room (leaves node_id) = remove_member node_id room

  unfoldable pub change_all : Room → List Change → Room
  change_all room [] = room
  change_all room (c ∷ cs) = change_all (change room c) cs

  pub change-IsLeased :
      (room : Room) (c : Change) (net : Ipv4Net)
      → nets.parse room.virtual_cidr ≡ some net
      → IsLeased (network net) (broadcast net) room
      → IsLeased (network net) (broadcast net) (change room c)
        × ((change room c).virtual_cidr ≡ room.virtual_cidr)
  unfolding change
  change-IsLeased room (joins node_id nickname role) net p v =
      go (add_or_reuse_member nets node_id nickname role room) refl
    where
      go :
          (r : Result RoomError (ℕ × Room))
          → add_or_reuse_member nets node_id nickname role room ≡ r
          → IsLeased (network net) (broadcast net) (joined room r)
            × ((joined room r).virtual_cidr ≡ room.virtual_cidr)
      go (err e) eq = (v, refl)
      go (ok (ip, after)) eq =
          add_or_reuse_member-IsLeased nets node_id ip nickname role room after net p v eq
  change-IsLeased room (leaves node_id) net p v = (
    remove_member-IsLeased (network net) (broadcast net) node_id room v,
    unfold remove_member in refl,
  )

  pub change_all-IsLeased :
      (room : Room) (cs : List Change) (net : Ipv4Net)
      → nets.parse room.virtual_cidr ≡ some net
      → IsLeased (network net) (broadcast net) room
      → IsLeased (network net) (broadcast net) (change_all room cs)
        × ((change_all room cs).virtual_cidr ≡ room.virtual_cidr)
  unfolding change_all
  change_all-IsLeased room [] net p v = (v, refl)
  change_all-IsLeased room (c ∷ cs) net p v =
      let (w, cidr) = change-IsLeased room c net p v in
      let (u, same) = change_all-IsLeased (change room c) cs net (ap nets.parse cidr ∙ p) w in
      (u, same ∙ cidr)

  -- In a room whose subnet parses, after any joins and leaves: members with the same address are
  -- the same node, and every member's address lies strictly between the subnet's own and its
  -- broadcast address.
  pub change_all-new_addresses :
      (room_id owner : ℕ) (name cidr token : String) (net : Ipv4Net) (cs : List Change) (j k : ℕ)
      (m n : Member)
      → nets.parse cidr ≡ some net
      → lookup j (change_all (new room_id name owner cidr token) cs).members ≡ some m
      → lookup k (change_all (new room_id name owner cidr token) cs).members ≡ some n
      → (m.virtual_ip ≡ n.virtual_ip → j ≡ k)
        × (network net < m.virtual_ip)
        × (m.virtual_ip < broadcast net)
  change_all-new_addresses room_id owner name cidr token net cs j k m n p e f =
      let start = new room_id name owner cidr token in
      let (v, same_cidr) =
        change_all-IsLeased start cs net (unfold new in p)
          (new-IsLeased (network net) (broadcast net) room_id owner name cidr token) in
      let leases = (change_all start cs).ip_leases in
      let members = (change_all start cs).members in
      let at_j = (All-lookup (Leased leases) j m members v.held e).1 in
      let at_k = (All-lookup (Leased leases) k n members v.held f).1 in
      let (lo, hi) = v.in_range j m.virtual_ip at_j in
      (λ same. v.distinct j k n.virtual_ip (at_j ∙ ap some same) at_k, lo, hi)
