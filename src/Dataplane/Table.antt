-- ===== src/Dataplane/Table.antt =====
-- crates/r2n-dataplane/src/lib.rs: the peers, the table of MAC addresses, and whom a frame goes to.
-- Instants are nanoseconds. A peer's cipher and the parser of IP headers are parameters.
pub mod Routes
pub mod Peers
pub mod Choosing
mod Tests
use Prim.Native.String.{String}
use r2n.Common.{
  ℕ, suc, ◌+◌, ◌-◌, ◌≤◌, ◌<◌, ◌≡◌, Bool, true, false, not, ◌&&◌, ◌||◌, Option, none, some, List, [],
  ◌∷◌, length, map, ltb, leb, ◌==◌, if◌then◌else◌,
}
use r2n.Common.Maps.{Map, lookup, insert, remove, retain}
use r2n.Proto.{DataPacketType, broadcast, multicast}
use r2n.Dataplane.Frames.{FrameMode, l3, l2, ethernet_macs, is_broadcast_mac, is_multicast_mac}
use r2n.Dataplane.Path.{Floats, PathManager, add_or_update_path, record_success}

abbrev pub mac_table_max_entries : ℕ
mac_table_max_entries = 4096

abbrev pub mac_table_max_age : ℕ
mac_table_max_age = 300_000_000_000

-- r2n-proto's PeerInfo.
pub record PeerInfo : Type 0 where
  pub node_id : ℕ
  pub virtual_ip : ℕ
  pub nickname : String
  pub public_key : ℕ

pub record MacTableEntry : Type 0 where
  pub node_id : ℕ
  pub learned_at : ℕ
  pub last_seen : ℕ

pub record PacketTarget : Type 0 where
  pub peer : ℕ
  pub flood : Bool

module _ (floats : Floats) (Cipher : Type 0) where
  pub record DataPeer : Type 0 where
    pub info : PeerInfo
    pub path_manager : PathManager floats
    pub cipher : Option Cipher
    pub session_id : ℕ
    pub next_nonce : ℕ

  pub record DataPlane : Type 0 where
    pub peers : Map DataPeer
    pub mac_table : Map MacTableEntry

  abbrev pub new : DataPlane
  new = record { peers = []; mac_table = [] }

  abbrev pub upserted : DataPeer → Option DataPeer → DataPeer
  upserted peer none = peer
  upserted peer (some existing) = record existing { info = peer.info }

  pub upsert_peer : DataPeer → DataPlane → DataPlane
  upsert_peer peer d =
      let node_id = peer.info.node_id in
      record d { peers = insert node_id (upserted peer (lookup node_id d.peers)) d.peers }

  pub remove_peer : ℕ → DataPlane → DataPlane
  remove_peer node_id d = record d {
    peers = remove node_id d.peers;
    mac_table = retain (λ entry. not (entry.node_id == node_id)) d.mac_table;
  }

  abbrev pub clear_peers : DataPlane → DataPlane
  clear_peers d = record d { peers = []; mac_table = [] }

  abbrev pub or_else : Option Cipher → Option Cipher → Option Cipher
  or_else (some c) old = some c
  or_else none old = old

  abbrev pub direct_path : ℕ → ℕ → Option Cipher → DataPlane → ℕ → Option DataPeer → DataPlane
  direct_path now node_id cipher d addr none = d
  direct_path now node_id cipher d addr (some peer) =
      let paths = (add_or_update_path floats now addr false peer.path_manager).1 in
      record d {
        peers =
            insert node_id
              (record peer {
                path_manager = record_success floats now addr (floats.literal 10 1) paths;
                cipher = or_else cipher peer.cipher;
              })
              d.peers;
      }

  pub set_direct_path : ℕ → ℕ → ℕ → Option Cipher → DataPlane → DataPlane
  set_direct_path now node_id addr cipher d =
      direct_path now node_id cipher d addr (lookup node_id d.peers)

  abbrev pub candidate : ℕ → ℕ → ℕ → DataPlane → Option DataPeer → DataPlane
  candidate now node_id addr d none = d
  candidate now node_id addr d (some peer) = record d {
    peers =
        insert node_id
          (record peer {
            path_manager = (add_or_update_path floats now addr false peer.path_manager).1;
          })
          d.peers;
  }

  pub add_peer_candidate : ℕ → ℕ → ℕ → DataPlane → DataPlane
  add_peer_candidate now node_id addr d = candidate now node_id addr d (lookup node_id d.peers)

-- `now - last_seen` stops at 0, as `saturating_duration_since` does.
pub prune_mac_table : ℕ → Map MacTableEntry → Map MacTableEntry
prune_mac_table now table = retain (λ entry. leb (now - entry.last_seen) mac_table_max_age) table

-- `min_by_key`, which keeps the first of several least ones.
pub oldest : Map MacTableEntry → ℕ × MacTableEntry → ℕ × MacTableEntry
oldest [] least = least
oldest ((mac, entry) ∷ table) least =
    let less = ltb entry.last_seen least.1.last_seen in
    oldest table (if less then (mac, entry) else least)

pub evict_oldest_mac : Map MacTableEntry → Map MacTableEntry
evict_oldest_mac [] = []
evict_oldest_mac (e ∷ table) = remove (oldest table e).0 (e ∷ table)

abbrev pub learned : ℕ → ℕ → Option MacTableEntry → MacTableEntry
learned now node_id none = record { node_id = node_id; learned_at = now; last_seen = now }
learned now node_id (some entry) = record entry { node_id = node_id; last_seen = now }

pub learn_mac : ℕ → ℕ → ℕ → Map MacTableEntry → Map MacTableEntry
learn_mac now mac node_id table =
    let pruned = prune_mac_table now table in
    let added = insert mac (learned now node_id (lookup mac pruned)) pruned in
    if ltb mac_table_max_entries (length added) then evict_oldest_mac added else added

module _ (floats : Floats) (Cipher : Type 0) (ipv4_destination : List ℕ → Option ℕ) where
  abbrev pub everyone : Map (DataPeer floats Cipher) → List PacketTarget
  everyone peers = map (λ e. record { peer = e.0; flood = true }) peers

  -- `iter().find(..)` on the virtual address.
  pub with_ip : ℕ → Map (DataPeer floats Cipher) → List PacketTarget
  with_ip dest [] = []
  with_ip dest ((node_id, peer) ∷ peers) =
      if peer.info.virtual_ip == dest
      then record { peer = node_id; flood = false } ∷ []
      else with_ip dest peers

  abbrev pub to_ip : Option ℕ → Map (DataPeer floats Cipher) → List PacketTarget
  to_ip none peers = []
  to_ip (some dest) peers = with_ip dest peers

  abbrev pub is_group : DataPacketType → Bool
  is_group broadcast = true
  is_group multicast = true
  is_group _ = false

  pub select_l3_targets : DataPacketType → List ℕ → DataPlane floats Cipher → List PacketTarget
  select_l3_targets packet_type payload d =
      if is_group packet_type then everyone d.peers else to_ip (ipv4_destination payload) d.peers

  abbrev pub to_known :
      DataPlane floats Cipher → ℕ → Option (DataPeer floats Cipher) → List PacketTarget
  to_known d peer_id none = everyone d.peers
  to_known d peer_id (some peer) = record { peer = peer_id; flood = false } ∷ []

  abbrev pub to_entry : DataPlane floats Cipher → Option MacTableEntry → List PacketTarget
  to_entry d none = everyone d.peers
  to_entry d (some entry) = to_known d entry.node_id (lookup entry.node_id d.peers)

  abbrev pub to_macs : DataPlane floats Cipher → Option (ℕ × ℕ) → List PacketTarget
  to_macs d none = []
  to_macs d (some (dst_mac, src_mac)) =
      if is_broadcast_mac dst_mac || is_multicast_mac dst_mac
      then everyone d.peers
      else to_entry d (lookup dst_mac d.mac_table)

  -- The targets, and the state with the table pruned.
  pub select_l2_targets :
      ℕ → List ℕ → DataPlane floats Cipher → List PacketTarget × DataPlane floats Cipher
  select_l2_targets now frame d =
      let pruned = record d { mac_table = prune_mac_table now d.mac_table } in
      (to_macs pruned (ethernet_macs frame), pruned)

  pub select_targets :
      ℕ
      → FrameMode
      → DataPacketType
      → List ℕ
      → DataPlane floats Cipher
      → List PacketTarget × DataPlane floats Cipher
  select_targets now l3 packet_type payload d = (select_l3_targets packet_type payload d, d)
  select_targets now l2 packet_type payload d = select_l2_targets now payload d
