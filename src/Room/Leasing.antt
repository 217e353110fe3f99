-- ===== src/Room/Leasing.antt =====
-- The leases of a room and what the operations keep of them.
use Prim.Native.String.{String}
use r2n.Common.{
  ℕ, ◌-◌, ◌<◌, ◌≡◌, refl, ap, ◌∙◌, false, not, ◌&&◌, Option, none, some, [], ◌∷◌, arith, Result, ok,
  err, All, any, ◌==◌, Option-cases, inl, inr, ==_iff,
}
use r2n.Common.Maps.{
  Map, lookup, insert, values, lookup-insert, All-insert, All-remove, any-values-lookup,
  any-values-All,
}
use r2n.Room.Nets.{Ipv4Nets}
use r2n.Room.Errors.{RoomError}
use r2n.Room.Leases.{find_host-some}
use r2n.Room.{
  Room, Member, MemberRole, new, add_member, remove_member, taken_by_other, is_used, find_host,
  preferred_host, lease, admit, allocate_ip, add_or_reuse_member,
}

abbrev pub Leased : Map ℕ → ℕ × Member → Type 0
Leased leases e = (e.1.node_id ≡ e.0) × (lookup e.0 leases ≡ some e.1.virtual_ip)

-- Every member holds the lease of its address; no address is leased to two nodes; and each lies
-- strictly between `lo` and `hi`.
pub record IsLeased (lo hi : ℕ) (room : Room) : Type 0 where
  pub held : All (Leased room.ip_leases) room.members
  pub distinct :
      (j k ip : ℕ) → lookup j room.ip_leases ≡ some ip → lookup k room.ip_leases ≡ some ip → j ≡ k
  pub in_range : (k ip : ℕ) → lookup k room.ip_leases ≡ some ip → (lo < ip) × (ip < hi)

pub new-IsLeased :
    (lo hi room_id owner : ℕ) (name cidr token : String)
    → IsLeased lo hi (new room_id name owner cidr token)
unfolding new lookup
new-IsLeased lo hi room_id owner name cidr token = record {
  held = tt;
  distinct = λ j k ip e f. cc;
  in_range = λ k ip e. cc;
}

pub remove_member-IsLeased :
    (lo hi node_id : ℕ) (room : Room)
    → IsLeased lo hi room
    → IsLeased lo hi (remove_member node_id room)
unfolding remove_member
remove_member-IsLeased lo hi node_id room v = record {
  held = All-remove (Leased room.ip_leases) node_id room.members v.held;
  distinct = v.distinct;
  in_range = v.in_range;
}

-- The lease of a node blocks no one but that node.
not_taken :
    (node_id ip : ℕ) (leases : Map ℕ) (members : Map Member)
    → ((k : ℕ) → lookup k leases ≡ some ip → k ≡ node_id)
    → All (Leased leases) members
    → taken_by_other node_id ip (values members) ≡ false
not_taken node_id ip leases members only h = any-values-All _ members (go members h)
  where
    go :
        (ms : Map Member)
        → All (Leased leases) ms
        → All (λ e. (not (e.1.node_id == node_id) && e.1.virtual_ip == ip) ≡ false) ms
    go [] l = tt
    go (e ∷ ms) l = (ground (arith, only e.0), go ms l.1)

module _ (nets : Ipv4Nets) where
  open nets use {Ipv4Net, network, broadcast}

  -- A node that has a lease gets its address again.
  pub allocate_ip_leased :
      (lo hi node_id ip : ℕ) (role : MemberRole) (room : Room)
      → IsLeased lo hi room
      → lookup node_id room.ip_leases ≡ some ip
      → allocate_ip nets node_id role room ≡ ok (ip, room)
  unfolding allocate_ip
  allocate_ip_leased lo hi node_id ip role room v e = rw (
    e,
    not_taken node_id ip room.ip_leases room.members (λ k h. v.distinct k node_id ip h e) v.held,
  )

  pub allocate_ip_fresh :
      (node_id ip : ℕ) (role : MemberRole) (room after : Room) (net : Ipv4Net)
      → lookup node_id room.ip_leases ≡ none
      → nets.parse room.virtual_cidr ≡ some net
      → allocate_ip nets node_id role room ≡ ok (ip, after)
      → (network net < ip)
        × (ip < broadcast net)
        × (is_used room ip ≡ false)
        × (after ≡ record room { ip_leases = insert node_id ip room.ip_leases })
  unfolding allocate_ip
  allocate_ip_fresh node_id ip role room after net e p h =
      go
        (find_host (broadcast net - network net) (network net) (broadcast net) (is_used room)
          (preferred_host role))
        refl (rw (e, p) at h)
    where
      first : 0 < preferred_host role
      first = ground arith

      go :
          (o : Option ℕ)
          → find_host
              (broadcast net - network net)
              (network net)
              (broadcast net)
              (is_used room)
              (preferred_host role)
            ≡ o
          → lease node_id room o ≡ ok (ip, after)
          → (network net < ip)
            × (ip < broadcast net)
            × (is_used room ip ≡ false)
            × (after ≡ record room { ip_leases = insert node_id ip room.ip_leases })
      go none f l = cc
      go (some a) f l =
          let same : a ≡ ip = cc in
          let (lo, hi, free) =
            find_host-some _ (network net) (broadcast net) (is_used room) (preferred_host role) a
              (nets.broadcast_max net) first f in
          (omega arith, omega arith, rw (← same) free, cc)

unused : (room : Room) (k ip : ℕ) → is_used room ip ≡ false → lookup k room.ip_leases ≡ some ip → ⊥
unused room k ip free e =
    let off : any (λ a. a == ip) (values room.ip_leases) ≡ false = ground arith in
    cc (any-values-lookup (λ a. a == ip) k ip room.ip_leases off e, (==_iff ip ip).1 refl)

Leased-insert :
    (node_id ip : ℕ) (leases : Map ℕ) (members : Map Member)
    → ((a : ℕ) → lookup node_id leases ≡ some a → a ≡ ip)
    → All (Leased leases) members
    → All (Leased (insert node_id ip leases)) members
Leased-insert node_id ip leases [] own h = tt
Leased-insert node_id ip leases (e ∷ ms) own h = (
  (h.0.0, ground (arith, lookup-insert node_id e.0 ip leases, h.0.1, own e.1.virtual_ip)),
  Leased-insert node_id ip leases ms own h.1,
)

lease-IsLeased :
    (lo hi node_id ip : ℕ) (room : Room)
    → IsLeased lo hi room
    → lookup node_id room.ip_leases ≡ none
    → is_used room ip ≡ false
    → lo < ip
    → ip < hi
    → IsLeased lo hi (record room { ip_leases = insert node_id ip room.ip_leases })
lease-IsLeased lo hi node_id ip room v none_yet free l h = record {
  held = Leased-insert node_id ip room.ip_leases room.members (λ a e. cc) v.held;
  distinct = λ j k a e f. ground (
    arith,
    lookup-insert node_id j ip room.ip_leases,
    lookup-insert node_id k ip room.ip_leases,
    v.distinct j k a,
    unused room j ip free,
    unused room k ip free,
  );
  in_range = λ k a e. ground (arith, lookup-insert node_id k ip room.ip_leases, v.in_range k a);
}

add_member-IsLeased :
    (lo hi : ℕ) (m : Member) (room : Room)
    → IsLeased lo hi room
    → lookup m.node_id room.ip_leases ≡ some m.virtual_ip
    → IsLeased lo hi (add_member m room)
unfolding add_member
add_member-IsLeased lo hi m room v e =
    let leases = room.ip_leases in
    let id = m.node_id in
    let ip = m.virtual_ip in
    record {
      held =
          All-insert (Leased (insert id ip leases)) id m room.members
            (Leased-insert id ip leases room.members (λ a f. cc) v.held)
            (refl, ground (arith, lookup-insert id id ip leases));
      distinct = λ j k a f g. v.distinct j k a (same j ∙ f) (same k ∙ g);
      in_range = λ k a f. v.in_range k a (same k ∙ f);
    }
  where
    same :
        (k : ℕ) → lookup k room.ip_leases ≡ lookup k (insert m.node_id m.virtual_ip room.ip_leases)
    same k = ground (arith, lookup-insert m.node_id k m.virtual_ip room.ip_leases)

module _ (nets : Ipv4Nets) where
  open nets use {Ipv4Net, network, broadcast}

  pub allocate_ip-IsLeased :
      (node_id ip : ℕ) (role : MemberRole) (room after : Room) (net : Ipv4Net)
      → nets.parse room.virtual_cidr ≡ some net
      → IsLeased (network net) (broadcast net) room
      → allocate_ip nets node_id role room ≡ ok (ip, after)
      → IsLeased (network net) (broadcast net) after
        × (lookup node_id after.ip_leases ≡ some ip)
        × (after.virtual_cidr ≡ room.virtual_cidr)
  allocate_ip-IsLeased node_id ip role room after net p v h =
      elim (Option-cases (lookup node_id room.ip_leases)) [
        | inr (a, e) ↦
            let again =
              allocate_ip_leased nets (network net) (broadcast net) node_id a role room v e in
            let same : after ≡ room = cc in
            let same_ip : a ≡ ip = cc in rw (same) (v, e ∙ ap some same_ip, refl)
        | inl e ↦
            let (lo, hi, free, eq) = allocate_ip_fresh nets node_id ip role room after net e p h in
            rw (eq) (
              lease-IsLeased (network net) (broadcast net) node_id ip room v e free lo hi,
              ground (arith, lookup-insert node_id node_id ip room.ip_leases),
              refl,
            )
      ]

  pub add_or_reuse_member-IsLeased :
      (node_id ip : ℕ) (nickname : String) (role : MemberRole) (room after : Room) (net : Ipv4Net)
      → nets.parse room.virtual_cidr ≡ some net
      → IsLeased (network net) (broadcast net) room
      → add_or_reuse_member nets node_id nickname role room ≡ ok (ip, after)
      → IsLeased (network net) (broadcast net) after × (after.virtual_cidr ≡ room.virtual_cidr)
  unfolding add_or_reuse_member
  add_or_reuse_member-IsLeased node_id ip nickname role room after net p v h =
      go (allocate_ip nets node_id role room) refl h
    where
      go :
          (r : Result RoomError (ℕ × Room))
          → allocate_ip nets node_id role room ≡ r
          → admit nets node_id nickname role r ≡ ok (ip, after)
          → IsLeased (network net) (broadcast net) after × (after.virtual_cidr ≡ room.virtual_cidr)
      go (err e) eq a = cc
      go (ok (a, mid)) eq j =
          let (w, l, cidr) = allocate_ip-IsLeased node_id a role room mid net p v eq in
          let m : Member = record {
            node_id = node_id;
            virtual_ip = a;
            nickname = nickname;
            role = role;
          } in
          let same : after ≡ add_member m mid = cc in
          rw same
            (add_member-IsLeased (network net) (broadcast net) m mid w l, unfold add_member in cidr)
