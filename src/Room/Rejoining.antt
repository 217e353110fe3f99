-- ===== src/Room/Rejoining.antt =====
-- A lease stays with its node.
use Prim.Native.String.{String}
use r2n.Common.{
  ℕ, ◌≡◌, refl, ap, ◌∙◌, none, some, List, [], ◌∷◌, arith, Result, ok, err, Option-cases, inl, inr,
}
use r2n.Common.Maps.{Map, lookup, insert, lookup-insert, All-lookup}
use r2n.Room.Nets.{Ipv4Nets}
use r2n.Room.Errors.{RoomError}
use r2n.Room.{
  Room, Member, MemberRole, new, add_member, remove_member, admit, allocate_ip, add_or_reuse_member,
}
use r2n.Room.Leasing.{
  Leased, IsLeased, new-IsLeased, remove_member-IsLeased, allocate_ip-IsLeased, allocate_ip_leased,
  allocate_ip_fresh,
}
use r2n.Room.Members.{
  Change, joins, leaves, joined, change, change_all, change-IsLeased, change_all-IsLeased,
}

-- To insert what is there changes no lookup.
insert_again :
    (j k a ip : ℕ) (leases : Map ℕ)
    → lookup j leases ≡ some a
    → lookup k leases ≡ some ip
    → lookup k (insert j a leases) ≡ some ip
insert_again j k a ip leases e f = ground (arith, lookup-insert j k a leases)

insert_new :
    (j k a ip : ℕ) (leases : Map ℕ)
    → lookup j leases ≡ none
    → lookup k leases ≡ some ip
    → lookup k (insert j a leases) ≡ some ip
insert_new j k a ip leases e f = ground (arith, lookup-insert j k a leases)

module _ (nets : Ipv4Nets) where
  open nets use {Ipv4Net, network, broadcast}

  allocate_ip_keeps :
      (j k a ip : ℕ) (role : MemberRole) (room after : Room) (net : Ipv4Net)
      → nets.parse room.virtual_cidr ≡ some net
      → IsLeased (network net) (broadcast net) room
      → lookup k room.ip_leases ≡ some ip
      → allocate_ip nets j role room ≡ ok (a, after)
      → lookup k after.ip_leases ≡ some ip
  allocate_ip_keeps j k a ip role room after net p v e h =
      elim (Option-cases (lookup j room.ip_leases)) [
        | inr (b, f) ↦
            let again = allocate_ip_leased nets (network net) (broadcast net) j b role room v f in
            let same : after ≡ room = cc in rw same e
        | inl f ↦
            let (lo, hi, free, eq) = allocate_ip_fresh nets j a role room after net f p h in
            rw eq (insert_new j k a ip room.ip_leases f e)
      ]

  change_keeps :
      (room : Room) (c : Change nets) (net : Ipv4Net) (k ip : ℕ)
      → nets.parse room.virtual_cidr ≡ some net
      → IsLeased (network net) (broadcast net) room
      → lookup k room.ip_leases ≡ some ip
      → lookup k (change nets room c).ip_leases ≡ some ip
  unfolding change add_or_reuse_member add_member
  change_keeps room (joins j nickname role) net k ip p v e = go (allocate_ip nets j role room) refl
    where
      go :
          (r : Result RoomError (ℕ × Room))
          → allocate_ip nets j role room ≡ r
          → lookup k (joined nets room (admit nets j nickname role r)).ip_leases ≡ some ip
      go (err x) eq = e
      go (ok (a, mid)) eq =
          let (w, own, cidr) = allocate_ip-IsLeased nets j a role room mid net p v eq in
          insert_again j k a ip mid.ip_leases own
            (allocate_ip_keeps j k a ip role room mid net p v e eq)
  change_keeps room (leaves j) net k ip p v e = unfold remove_member in e

  -- Whoever joins and leaves, a lease that there is stays.
  change_all_keeps :
      (room : Room) (cs : List (Change nets)) (net : Ipv4Net) (k ip : ℕ)
      → nets.parse room.virtual_cidr ≡ some net
      → IsLeased (network net) (broadcast net) room
      → lookup k room.ip_leases ≡ some ip
      → IsLeased (network net) (broadcast net) (change_all nets room cs)
        × (lookup k (change_all nets room cs).ip_leases ≡ some ip)
  unfolding change_all
  change_all_keeps room [] net k ip p v e = (v, e)
  change_all_keeps room (c ∷ cs) net k ip p v e =
      let (w, cidr) = change-IsLeased nets room c net p v in
      change_all_keeps (change nets room c) cs net k ip (ap nets.parse cidr ∙ p) w
        (change_keeps room c net k ip p v e)

  -- A node that was a member after some joins and leaves, leaves and joins again, under any name
  -- and role, gets the address that it had, whoever else joins and leaves in between.
  pub rejoin_same_ip :
      (room_id owner : ℕ) (name cidr token : String) (net : Ipv4Net) (cs ds : List (Change nets))
      (k : ℕ) (m : Member) (nickname : String) (role : MemberRole)
      → nets.parse cidr ≡ some net
      → lookup k (change_all nets (new room_id name owner cidr token) cs).members ≡ some m
      → (after : Room) × (add_or_reuse_member nets k nickname role (
            change_all nets
              (remove_member k (change_all nets (new room_id name owner cidr token) cs))
              ds)
          ≡ ok (m.virtual_ip, after))
  unfolding add_or_reuse_member
  rejoin_same_ip room_id owner name cidr token net cs ds k m nickname role p e =
      let start = new room_id name owner cidr token in
      let room = change_all nets start cs in
      let (v, same) =
        change_all-IsLeased nets start cs net (unfold new in p)
          (new-IsLeased (network net) (broadcast net) room_id owner name cidr token) in
      let w = remove_member-IsLeased (network net) (broadcast net) k room v in
      let held = (All-lookup (Leased room.ip_leases) k m room.members v.held e).1 in
      let (last, kept) =
        change_all_keeps (remove_member k room) ds net k m.virtual_ip
          (unfold remove_member in (ap nets.parse same ∙ unfold new in p)) w
          (unfold remove_member in held) in
      (
        _,
        ap (admit nets k nickname role) (
            allocate_ip_leased nets (network net) (broadcast net) k m.virtual_ip role
              (change_all nets (remove_member k room) ds) last kept),
      )
