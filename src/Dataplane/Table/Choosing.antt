-- ===== src/Dataplane/Table/Choosing.antt =====
-- Whom a frame from the tunnel goes to, by its addresses.
use r2n.Common.{
  ℕ, ◌/◌, ◌%◌, ◌^◌, ◌≤◌, ◌<◌, ◌≡◌, ◌≢◌, ◌⊎◌, inl, inr, refl, sym, ap, true, false, ◌||◌, Option,
  none, some, List, [], ◌∷◌, ◌++◌, map, All, length, take, arith, ◌==◌, if_cases, lt→ltb, le→ltb,
  ==_iff,
}
use r2n.Common.Maps.{Map, lookup}
use r2n.Common.Words.{from_be}
use r2n.Proto.{
  DataPacketType, ipv4, ipv6, broadcast, multicast, discovery, keepalive, ping, pong, ethernet,
}
use r2n.Dataplane.Frames.{l3, l2, ethernet_macs, is_broadcast_mac, is_multicast_mac}
use r2n.Dataplane.Path.{Floats}
use r2n.Dataplane.Table.{
  MacTableEntry, DataPeer, DataPlane, PacketTarget, with_ip, to_ip, is_group, select_l3_targets,
  select_l2_targets, select_targets, prune_mac_table,
}

differs : (v dest : ℕ) → (v == dest) ≡ false → ◌≢◌ {A = Option ℕ} (some dest) (some v)
differs v dest h = λ e. let same : dest ≡ v = cc in ground arith

group_mac : (mac : ℕ) → mac / 2 ^ 40 % 2 ≡ 1 → (is_broadcast_mac mac || is_multicast_mac mac) ≡ true
group_mac mac h = ground arith

single_mac :
    (mac : ℕ) → mac / 2 ^ 40 % 2 ≡ 0 → (is_broadcast_mac mac || is_multicast_mac mac) ≡ false
single_mac mac h = ground arith

module _ (floats : Floats) (Cipher : Type 0) (ipv4_destination : List ℕ → Option ℕ) where
  -- Every peer, each to be told that the frame is flooded, and one peer only.
  abbrev pub all_flooded : Map (DataPeer floats Cipher) → List PacketTarget
  all_flooded peers = map (λ e. record { peer = e.0; flood = true }) peers

  abbrev pub alone : ℕ → List PacketTarget
  alone k = record { peer = k; flood = false } ∷ []

  -- The first peer that has the address, or no one where none has it.
  abbrev pub ByAddress : Option ℕ → Map (DataPeer floats Cipher) → List PacketTarget → Type 0
  ByAddress dest peers targets =
      ((targets ≡ []) × All (λ e. dest ≢ some e.1.info.virtual_ip) peers)
      ⊎ ((front : Map (DataPeer floats Cipher)) × (k : ℕ) × (peer : DataPeer floats Cipher)
          × (back : Map (DataPeer floats Cipher)) × (peers ≡ front ++ ((k, peer) ∷ back))
          × All (λ e. dest ≢ some e.1.info.virtual_ip) front
          × (dest ≡ some peer.info.virtual_ip)
          × (targets ≡ alone k))

  -- By the destination's MAC address, where the frame has one: everyone if it is a group's, which
  -- the broadcast address is too, or is not in the table, or leads to an unknown peer; else that.
  abbrev pub ByMac :
      List ℕ → Map MacTableEntry → Map (DataPeer floats Cipher) → List PacketTarget → Type 0
  ByMac frame table peers targets =
      let mac = from_be (take 6 frame) in
      (length frame < 14 → targets ≡ [])
      × (14 ≤ length frame → mac / 2 ^ 40 % 2 ≡ 1 → targets ≡ all_flooded peers)
      × (14 ≤ length frame
          → mac / 2 ^ 40 % 2 ≡ 0
          → lookup mac table ≡ none
          → targets ≡ all_flooded peers)
      × ((entry : MacTableEntry)
          → 14 ≤ length frame
          → mac / 2 ^ 40 % 2 ≡ 0
          → lookup mac table ≡ some entry
          → (lookup entry.node_id peers ≡ none → targets ≡ all_flooded peers)
            × ((peer : DataPeer floats Cipher)
                → lookup entry.node_id peers ≡ some peer
                → targets ≡ alone entry.node_id))

  with_ip-ByAddress :
      (dest : ℕ) (peers : Map (DataPeer floats Cipher))
      → ByAddress (some dest) peers (with_ip floats Cipher ipv4_destination dest peers)
  unfolding with_ip
  with_ip-ByAddress dest [] = inl (refl, tt)
  with_ip-ByAddress dest ((k, peer) ∷ peers) =
      if_cases (ByAddress (some dest) ((k, peer) ∷ peers)) (peer.info.virtual_ip == dest)
        (λ (same : (peer.info.virtual_ip == dest) ≡ true). inr (
          [],
          k,
          peer,
          peers,
          refl,
          tt,
          ap some (sym ((==_iff peer.info.virtual_ip dest).0 same)),
          refl,
        ))
        (λ (differ : (peer.info.virtual_ip == dest) ≡ false). elim (with_ip-ByAddress dest peers) [
          | inl (e, all) ↦ inl (e, (differs peer.info.virtual_ip dest differ, all))
          | inr (front, j, found, back, at, ahead, has, e) ↦ inr (
            (k, peer) ∷ front,
            j,
            found,
            back,
            ap (◌∷◌ (k, peer)) at,
            (differs peer.info.virtual_ip dest differ, ahead),
            has,
            e,
          )
        ])

  no_address :
      (peers : Map (DataPeer floats Cipher))
      → All (λ e. ◌≢◌ {A = Option ℕ} none (some e.1.info.virtual_ip)) peers
  no_address [] = tt
  no_address (e ∷ peers) = (λ h. cc, no_address peers)

  to_ip-ByAddress :
      (o : Option ℕ) (peers : Map (DataPeer floats Cipher))
      → ByAddress o peers (to_ip floats Cipher ipv4_destination o peers)
  to_ip-ByAddress none peers = inl (refl, no_address peers)
  to_ip-ByAddress (some dest) peers = with_ip-ByAddress dest peers

  -- An IP packet of a group goes to all peers, flooded, and any other to the first peer that has its
  -- destination, not flooded, or to no one where none has it. An Ethernet frame that is too short
  -- for its addresses goes to no one; one for a group goes to all peers, flooded, and so does one
  -- whose destination is not in the table without its expired entries or leads to no peer; else it
  -- goes to the peer that the entry of its destination names, not flooded. The peers stay as they
  -- are.
  pub select_targets_chosen :
      (now : ℕ) (packet_type : DataPacketType) (payload : List ℕ) (d : DataPlane floats Cipher)
      → let (by_ip, same) =
          select_targets floats Cipher ipv4_destination now l3 packet_type payload d in
        let (by_mac, pruned) =
          select_targets floats Cipher ipv4_destination now l2 packet_type payload d in
        (same ≡ d)
        × ((packet_type ≡ broadcast) ⊎ (packet_type ≡ multicast) → by_ip ≡ all_flooded d.peers)
        × (packet_type ≢ broadcast
            → packet_type ≢ multicast
            → ByAddress (ipv4_destination payload) d.peers by_ip)
        × (pruned ≡ record d { mac_table = prune_mac_table now d.mac_table })
        × ByMac payload (prune_mac_table now d.mac_table) d.peers by_mac
  unfolding select_targets select_l3_targets select_l2_targets ethernet_macs
  select_targets_chosen now packet_type payload d =
      let mac = from_be (take 6 payload) in
      (
        refl,
        λ group. elim group [ inl e ↦ rw e refl | inr e ↦ rw e refl ],
        λ no_broadcast no_multicast.
            rw (no_group packet_type no_broadcast no_multicast)
              (to_ip-ByAddress (ipv4_destination payload) d.peers),
        refl,
        (
          λ short. rw (lt→ltb (length payload) 14 short) refl,
          λ long odd. rw (le→ltb (length payload) 14 long, group_mac mac odd) refl,
          λ long even missing.
              rw (le→ltb (length payload) 14 long, single_mac mac even, missing) refl,
          λ entry long even found. (
            λ unknown.
                rw (le→ltb (length payload) 14 long, single_mac mac even, found, unknown) refl,
            λ peer known.
                rw (le→ltb (length payload) 14 long, single_mac mac even, found, known) refl,
          ),
        ),
      )
    where
      no_group :
          (p : DataPacketType)
          → p ≢ broadcast
          → p ≢ multicast
          → is_group floats Cipher ipv4_destination p ≡ false
      no_group ipv4 b m = refl
      no_group ipv6 b m = refl
      no_group broadcast b m = elim (b refl) [ ]
      no_group multicast b m = elim (m refl) [ ]
      no_group discovery b m = refl
      no_group keepalive b m = refl
      no_group ping b m = refl
      no_group pong b m = refl
      no_group ethernet b m = refl
