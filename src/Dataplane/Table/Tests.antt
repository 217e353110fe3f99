-- ===== src/Dataplane/Table/Tests.antt =====
-- The theorems on peers and MAC addresses at concrete events. A cipher is a number, and the
-- address of a packet is its first byte.
use r2n.Common.{
  ℕ, ◌≤◌, ◌≡◌, ◌≢◌, ◌⊎◌, refl, true, false, Option, none, some, List, [], ◌∷◌, arith, length,
}
use r2n.Common.Maps.{lookup, insert, remove, retain, Map}
use r2n.Proto.{ipv4, ethernet, broadcast, multicast}
use r2n.Dataplane.Frames.{l3, l2, ethernet_macs}
use r2n.Common.Words.{from_be}
use r2n.Dataplane.Path.{new}
use r2n.Dataplane.Path.Tests.{thousandths}
use r2n.Dataplane.Table.{
  MacTableEntry, DataPeer, DataPlane, PacketTarget, upsert_peer, remove_peer, learn_mac,
  prune_mac_table, select_targets, select_l2_targets, select_l3_targets, with_ip,
}
use r2n.Dataplane.Table.Routes.{learn_mac-lookup}
use r2n.Dataplane.Table.Peers
use r2n.Dataplane.Table.Choosing.{all_flooded, ByAddress, ByMac, select_targets_chosen}

abbrev peer : ℕ → ℕ → DataPeer thousandths ℕ
peer node_id virtual_ip = record {
  info = record { node_id = node_id; virtual_ip = virtual_ip; nickname = "peer"; public_key = 0 };
  path_manager = new thousandths 0 40;
  cipher = none;
  session_id = 1;
  next_nonce = 0;
}

abbrev events : List (Peers.Event thousandths ℕ)
events =
    Peers.upserts (peer 1 101)
    ∷ Peers.upserts (peer 2 102)
    ∷ Peers.learns 5 171 1
    ∷ Peers.learns 6 172 2
    ∷ Peers.removes 2
    ∷ []

abbrev after_events : DataPlane thousandths ℕ
after_events = Peers.run thousandths ℕ (r2n.Dataplane.Table.new thousandths ℕ) events

-- The address that leads to the removed peer is gone.
route_removed : lookup 172 after_events.mac_table ≡ none
unfolding Peers.run upsert_peer remove_peer learn_mac prune_mac_table insert remove retain lookup
route_removed = refl

run-new_routes_example :
    ((mac : ℕ) (entry : MacTableEntry)
      → lookup mac after_events.mac_table ≡ some entry
      → Peers.Known thousandths ℕ after_events.peers entry.node_id)
    × (length after_events.mac_table ≤ 4096)
run-new_routes_example = Peers.run-new_routes thousandths ℕ events

abbrev one_entry : Map MacTableEntry
one_entry = (172, record { node_id = 2; learned_at = 1; last_seen = 1 }) ∷ []

learn_mac-lookup_example :
    (entry : MacTableEntry) × (lookup 171 (learn_mac 5 171 1 one_entry) ≡ some entry)
    × (◌≡◌ {A = ℕ} entry.node_id 1)
    × (◌≡◌ {A = ℕ} entry.last_seen 5)
learn_mac-lookup_example = learn_mac-lookup 5 171 1 one_entry (omega (arith, few))
  where
    few : length one_entry ≡ 1
    few = refl

abbrev first_byte : List ℕ → Option ℕ
first_byte [] = none
first_byte (b ∷ bs) = some b

abbrev two_peers : DataPlane thousandths ℕ
two_peers = record { peers = (1, peer 1 101) ∷ (2, peer 2 102) ∷ []; mac_table = [] }

-- A packet for an address goes to the peer that has it; a broadcast frame to both.
to_second :
    (select_targets thousandths ℕ first_byte 0 l3 ipv4 (102 ∷ []) two_peers).0
    ≡ record { peer = 2; flood = false } ∷ []
unfolding select_targets select_l3_targets with_ip
to_second = refl

abbrev group_frame : List ℕ
group_frame = 255 ∷ 255 ∷ 255 ∷ 255 ∷ 255 ∷ 255 ∷ 255 ∷ 255 ∷ 255 ∷ 255 ∷ 255 ∷ 255 ∷ 255 ∷ 255 ∷ []

to_both :
    (select_targets thousandths ℕ first_byte 0 l2 ethernet group_frame two_peers).0
    ≡ record { peer = 1; flood = true } ∷ record { peer = 2; flood = true } ∷ []
unfolding select_targets select_l2_targets ethernet_macs from_be
to_both = refl

select_targets_chosen_example :
    let (by_ip, same) = select_targets thousandths ℕ first_byte 0 l3 ipv4 (102 ∷ []) two_peers in
    let (by_mac, pruned) = select_targets thousandths ℕ first_byte 0 l2 ipv4 (102 ∷ []) two_peers in
    (same ≡ two_peers)
    × ((ipv4 ≡ broadcast) ⊎ (ipv4 ≡ multicast)
        → by_ip ≡ all_flooded thousandths ℕ first_byte two_peers.peers)
    × (ipv4 ≢ broadcast
        → ipv4 ≢ multicast
        → ByAddress thousandths ℕ first_byte (some 102) two_peers.peers by_ip)
    × (pruned ≡ record two_peers { mac_table = prune_mac_table 0 [] })
    × ByMac thousandths ℕ first_byte (102 ∷ []) (prune_mac_table 0 []) two_peers.peers by_mac
select_targets_chosen_example =
    select_targets_chosen thousandths ℕ first_byte 0 ipv4 (102 ∷ []) two_peers
