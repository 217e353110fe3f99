-- ===== src/Dataplane/Table/Peers.antt =====
-- The peers and the MAC table through any events.
use r2n.Common.{
  ℕ, ◌-◌, ◌≤◌, ◌≡◌, inl, inr, refl, ◌∙◌, Bool, false, not, Option, none, some, List, [], ◌∷◌, arith,
  All, length, leb, ◌==◌, if_cases, Bool-cases,
}
use r2n.Common.Maps.{
  Map, lookup, insert, remove, retain, lookup-insert, lookup-remove, length-retain, All-insert,
  All-remove, All-lookup,
}
use r2n.Dataplane.Path.{Floats}
use r2n.Dataplane.Table.{
  MacTableEntry, DataPeer, DataPlane, new, upsert_peer, remove_peer, clear_peers, set_direct_path,
  direct_path, add_peer_candidate, candidate, prune_mac_table, oldest, evict_oldest_mac, learn_mac,
  learned, mac_table_max_entries, mac_table_max_age,
}
use r2n.Dataplane.Table.Routes.{learn_mac-length}

module _ (floats : Floats) (Cipher : Type 0) where
  -- A peer with the id is there.
  abbrev pub Known : Map (DataPeer floats Cipher) → ℕ → Type 0
  Known peers k = (peer : DataPeer floats Cipher) × (lookup k peers ≡ some peer)

  -- Every entry of the table is for a peer.
  abbrev pub Routed : Map (DataPeer floats Cipher) → Map MacTableEntry → Type 0
  Routed peers = All (λ e. Known peers e.1.node_id)

  pub record IsValid (d : DataPlane floats Cipher) : Type 0 where
    pub routed : Routed d.peers d.mac_table
    pub bounded : length d.mac_table ≤ mac_table_max_entries

  Known-insert :
      (k j : ℕ) (peer : DataPeer floats Cipher) (peers : Map (DataPeer floats Cipher))
      → Known peers j
      → Known (insert k peer peers) j
  Known-insert k j peer peers (old, e) = elim (Bool-cases (k == j)) [
    | inl same ↦ (peer, lookup-insert k j peer peers ∙ rw same refl)
    | inr differ ↦ (old, lookup-insert k j peer peers ∙ rw differ e)
  ]

  Known-remove :
      (k j : ℕ) (peers : Map (DataPeer floats Cipher))
      → (j == k) ≡ false
      → Known peers j
      → Known (remove k peers) j
  Known-remove k j peers differ (old, e) =
      let other : (k == j) ≡ false = ground (arith, differ) in
      (old, lookup-remove k j peers ∙ rw other e)

  Routed-insert :
      (k : ℕ) (peer : DataPeer floats Cipher) (peers : Map (DataPeer floats Cipher))
      (table : Map MacTableEntry)
      → Routed peers table
      → Routed (insert k peer peers) table
  Routed-insert k peer peers [] h = tt
  Routed-insert k peer peers ((mac, entry) ∷ table) h =
      (Known-insert k entry.node_id peer peers h.0, Routed-insert k peer peers table h.1)

  Routed-remove :
      (k : ℕ) (peers : Map (DataPeer floats Cipher)) (table : Map MacTableEntry)
      → Routed peers table
      → Routed (remove k peers) (retain (λ entry. not (entry.node_id == k)) table)
  unfolding retain
  Routed-remove k peers [] h = tt
  Routed-remove k peers ((mac, entry) ∷ table) h =
      if_cases (Routed (remove k peers)) (not (entry.node_id == k))
        (λ other. (
          Known-remove k entry.node_id peers (ground (arith, other)) h.0,
          Routed-remove k peers table h.1,
        ))
        (λ _. Routed-remove k peers table h.1)

  Routed-retain :
      (p : MacTableEntry → Bool) (peers : Map (DataPeer floats Cipher)) (table : Map MacTableEntry)
      → Routed peers table
      → Routed peers (retain p table)
  unfolding retain
  Routed-retain p peers [] h = tt
  Routed-retain p peers ((mac, entry) ∷ table) h =
      if_cases (Routed peers) (p entry) (λ _. (h.0, Routed-retain p peers table h.1))
        (λ _. Routed-retain p peers table h.1)

  Routed-evict :
      (peers : Map (DataPeer floats Cipher)) (table : Map MacTableEntry)
      → Routed peers table
      → Routed peers (evict_oldest_mac table)
  unfolding evict_oldest_mac
  Routed-evict peers [] h = tt
  Routed-evict peers (e ∷ table) h =
      All-remove (λ e. Known peers e.1.node_id) (oldest table e).0 (e ∷ table) h

  Routed-learn :
      (now mac node_id : ℕ) (peers : Map (DataPeer floats Cipher)) (table : Map MacTableEntry)
      → Known peers node_id
      → Routed peers table
      → Routed peers (learn_mac now mac node_id table)
  unfolding learn_mac prune_mac_table
  Routed-learn now mac node_id peers table known h =
      let pruned = prune_mac_table now table in
      let added =
        All-insert (λ e. Known peers e.1.node_id) mac (learned now node_id (lookup mac pruned))
          pruned (Routed-retain _ peers table h) (go (lookup mac pruned)) in
      if_cases (Routed peers) _ (λ _. Routed-evict peers _ added) (λ _. added)
    where
      go : (old : Option MacTableEntry) → Known peers (learned now node_id old).node_id
      go none = known
      go (some e) = known

  -- What happens to the data plane. A MAC address is learned from a frame of a peer; a frame of a
  -- node that is no peer is not handled.
  pub data Event : Type 0 where
    upserts : DataPeer floats Cipher → Event
    removes : ℕ → Event
    clears : Event
    sets_direct : ℕ → ℕ → ℕ → Option Cipher → Event
    adds_candidate : ℕ → ℕ → ℕ → Event
    learns : ℕ → ℕ → ℕ → Event
    prunes : ℕ → Event

  abbrev learn_from :
      ℕ
      → ℕ
      → ℕ
      → DataPlane floats Cipher
      → Option (DataPeer floats Cipher)
      → DataPlane floats Cipher
  learn_from now mac src d none = d
  learn_from now mac src d (some peer) = record d { mac_table = learn_mac now mac src d.mac_table }

  abbrev pub event : DataPlane floats Cipher → Event → DataPlane floats Cipher
  event d (upserts peer) = upsert_peer floats Cipher peer d
  event d (removes k) = remove_peer floats Cipher k d
  event d clears = clear_peers floats Cipher d
  event d (sets_direct now k addr cipher) = set_direct_path floats Cipher now k addr cipher d
  event d (adds_candidate now k addr) = add_peer_candidate floats Cipher now k addr d
  event d (learns now mac src) = learn_from now mac src d (lookup src d.peers)
  event d (prunes now) = record d { mac_table = prune_mac_table now d.mac_table }

  unfoldable pub run : DataPlane floats Cipher → List Event → DataPlane floats Cipher
  run d [] = d
  run d (e ∷ es) = run (event d e) es

  inserted-IsValid :
      (k : ℕ) (peer : DataPeer floats Cipher) (d : DataPlane floats Cipher)
      → IsValid d
      → IsValid (record d { peers = insert k peer d.peers })
  inserted-IsValid k peer d v = record {
    routed = Routed-insert k peer d.peers d.mac_table v.routed;
    bounded = v.bounded;
  }

  event-IsValid : (d : DataPlane floats Cipher) (e : Event) → IsValid d → IsValid (event d e)
  unfolding upsert_peer remove_peer set_direct_path add_peer_candidate prune_mac_table
  event-IsValid d (upserts peer) v = inserted-IsValid peer.info.node_id _ d v
  event-IsValid d (removes k) v = record {
    routed = Routed-remove k d.peers d.mac_table v.routed;
    bounded =
        omega (arith, v.bounded, length-retain (λ entry. not (entry.node_id == k)) d.mac_table);
  }
  event-IsValid d clears v = record { routed = tt; bounded = omega arith }
  event-IsValid d (sets_direct now k addr cipher) v = go (lookup k d.peers)
    where
      go :
          (o : Option (DataPeer floats Cipher))
          → IsValid (direct_path floats Cipher now k cipher d addr o)
      go none = v
      go (some peer) = inserted-IsValid k _ d v
  event-IsValid d (adds_candidate now k addr) v = go (lookup k d.peers)
    where
      go : (o : Option (DataPeer floats Cipher)) → IsValid (candidate floats Cipher now k addr d o)
      go none = v
      go (some peer) = inserted-IsValid k _ d v
  event-IsValid d (learns now mac src) v = go (lookup src d.peers) refl
    where
      go :
          (o : Option (DataPeer floats Cipher))
          → lookup src d.peers ≡ o
          → IsValid (learn_from now mac src d o)
      go none e = v
      go (some peer) e = record {
        routed = Routed-learn now mac src d.peers d.mac_table (peer, e) v.routed;
        bounded = learn_mac-length now mac src d.mac_table v.bounded;
      }
  event-IsValid d (prunes now) v = record {
    routed = Routed-retain _ d.peers d.mac_table v.routed;
    bounded = omega (
      arith,
      v.bounded,
      length-retain (λ entry. leb (now - entry.last_seen) mac_table_max_age) d.mac_table,
    );
  }

  run-IsValid : (d : DataPlane floats Cipher) (es : List Event) → IsValid d → IsValid (run d es)
  unfolding run
  run-IsValid d [] v = v
  run-IsValid d (e ∷ es) v = run-IsValid (event d e) es (event-IsValid d e v)

  -- From the empty state, after any events: an address of the table leads to a peer, so that no
  -- frame goes to a node that was removed, and the table has at most 4096 entries.
  pub run-new_routes :
      (es : List Event)
      → let d = run (new floats Cipher) es in
        ((mac : ℕ) (entry : MacTableEntry)
          → lookup mac d.mac_table ≡ some entry
          → Known d.peers entry.node_id)
        × (length d.mac_table ≤ mac_table_max_entries)
  run-new_routes es =
      let v = run-IsValid (new floats Cipher) es (record { routed = tt; bounded = omega arith }) in
      (
        λ mac entry e.
            All-lookup (λ e. Known (run (new floats Cipher) es).peers e.1.node_id) mac entry _
              v.routed e,
        v.bounded,
      )
