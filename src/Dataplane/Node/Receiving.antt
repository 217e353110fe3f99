-- ===== src/Dataplane/Node/Receiving.antt =====
-- What becomes of a sealed frame at the peer it was sealed for.
use r2n.Common.{
  ℕ, ◌≡◌, ◌≢◌, refl, ap, ◌∙◌, Bool, true, false, Option, none, some, List, [], ◌∷◌, ◌++◌, arith,
  Bool-cases, inl, inr, if◌then◌else◌,
}
use r2n.Common.Maps.{lookup}
use r2n.Proto.{
  DataHeader, DataPacketType, ipv4, ipv6, ethernet, broadcast, multicast, discovery, keepalive,
  ping, pong, protocol_version,
}
use r2n.Proto.RoundTrip.{header_bytes}
use r2n.Crypto.{ReplayWindow, nonce_bytes, check_replay_window, finish, advance_replay_window}
use r2n.Crypto.RoundTrip.{IsCorrect}
use r2n.Policy.{inbound}
use r2n.Dataplane.Frames.{ethernet_macs, flood_type, policy_allows_packet_type, header_is_flood}
use r2n.Dataplane.Table.{DataPeer, set_direct_path}
use r2n.Dataplane.Incoming.Checks.{validate_incoming_header_unicast}
use r2n.Dataplane.Sealing.{Cipher}
use r2n.Dataplane.Sealing.Opening.{encode_zero, decrypt_sealed}
use r2n.Dataplane.Node.{Env, completed, Node, put_peer, count_hit, path_kind, is_relay_path}
use r2n.Dataplane.Node.Handling.{
  learned, learn_from, deliver, by_type, with_path, after_decryption, decrypted, opening, at_peer,
  validated, handle_incoming_frame, is_ethernet,
}

-- The packets of the network that go to one node: not those of the protocol, nor a group's.
abbrev pub is_unicast : DataPacketType → Bool
is_unicast ipv4 = true
is_unicast ipv6 = true
is_unicast ethernet = true
is_unicast _ = false

pub unicast_no_flood :
    (h : DataHeader) → is_unicast h.packet_type ≡ true → h.ttl ≡ 0 → header_is_flood h ≡ false
unicast_no_flood h one zero_ttl = ap (flood_type h.packet_type) zero_ttl ∙ go h.packet_type one
  where
    go : (t : DataPacketType) → is_unicast t ≡ true → flood_type t 0 ≡ false
    go t e = ground arith

module _ (env : Env) where
  open env use {floats, packets, profile, writes}

  by_type-unicast :
      (now : ℕ) (header : DataHeader) (addr : ℕ) (peer : DataPeer floats Cipher) (packet : List ℕ)
      (s : Node env) (t : DataPacketType)
      → is_unicast t ≡ true
      → by_type env now header addr peer packet s t ≡ deliver env now header addr peer packet s
  by_type-unicast now header addr peer packet s ipv4 e = refl
  by_type-unicast now header addr peer packet s ipv6 e = refl
  by_type-unicast now header addr peer packet s ethernet e = refl
  by_type-unicast now header addr peer packet s broadcast e = cc
  by_type-unicast now header addr peer packet s multicast e = cc
  by_type-unicast now header addr peer packet s discovery e = cc
  by_type-unicast now header addr peer packet s keepalive e = cc
  by_type-unicast now header addr peer packet s ping e = cc
  by_type-unicast now header addr peer packet s pong e = cc

  -- Learning touches the plane's tables only.
  Beside : Node env → Node env → Type 0
  Beside s t =
      (t.traffic_policy ≡ s.traffic_policy) × (t.has_tun ≡ s.has_tun) × (t.written ≡ s.written)

  learn_from-Beside :
      (now : ℕ) (header : DataHeader) (packet : List ℕ) (s : Node env)
      → Beside s (learn_from env now header packet s)
  unfolding Beside
  learn_from-Beside now header packet s = elim (Bool-cases (is_ethernet header.packet_type)) [
    | inl e ↦ rw e (go (ethernet_macs packet))
    | inr e ↦ rw e (refl, refl, refl)
  ]
    where
      go : (macs : Option (ℕ × ℕ)) → Beside s (learned env now header.src_node macs s)
      go none = (refl, refl, refl)
      go (some m) = (refl, refl, refl)

  deliver-written :
      (now : ℕ) (header : DataHeader) (addr : ℕ) (peer : DataPeer floats Cipher) (packet : List ℕ)
      (s : Node env)
      → policy_allows_packet_type packets s.traffic_policy header.packet_type inbound packet ≡ true
      → s.has_tun ≡ true
      → writes packet ≡ true
      → (t : Node env) × (deliver env now header addr peer packet s ≡ (completed, t))
        × (t.written ≡ s.written ++ (packet ∷ []))
  unfolding Beside
  deliver-written now header addr peer packet s allowed tun accepted =
      let direct : Node env =
        if is_relay_path env addr peer.path_manager.paths then s else record s {
          plane = set_direct_path floats Cipher now header.src_node addr none s.plane;
        } in
      let beside : Beside s direct =
        elim (Bool-cases (is_relay_path env addr peer.path_manager.paths)) [
          | inl e ↦ rw e (refl, refl, refl)
          | inr e ↦ rw e (refl, refl, refl)
        ] in
      let t = learn_from env now header packet direct in
      let (policy, has, written) = learn_from-Beside now header packet direct in
      let allows : policy_allows_packet_type packets t.traffic_policy header.packet_type inbound
            packet
          ≡ true =
        ap (λ p. policy_allows_packet_type packets p header.packet_type inbound packet)
          (policy ∙ beside.0)
        ∙ allowed in
      (
        record t { written = t.written ++ (packet ∷ []) },
        rw (allows, has ∙ (beside.1 ∙ tun), accepted) refl,
        ap (λ (w : List (List ℕ)). w ++ (packet ∷ [])) (written ∙ beside.2),
      )

  -- A frame for this node, from a peer that it has the cipher of, whose packet the peer sealed.
  pub handle_incoming_frame_written :
      (now addr : ℕ) (header : DataHeader) (peer : DataPeer floats Cipher) (c : Cipher)
      (window : ReplayWindow) (room_id : ℕ) (payload text tag : List ℕ) (s : Node env)
      → s.incoming.room_id ≡ some room_id
      → header.room_id ≡ room_id
      → header.version ≡ protocol_version
      → header.src_node ≢ s.incoming.local_node_id
      → header.origin_node ≢ s.incoming.local_node_id
      → header.dst_node ≡ s.incoming.local_node_id
      → is_unicast header.packet_type ≡ true
      → header.ttl ≡ 0
      → lookup header.src_node s.plane.peers ≡ some peer
      → peer.cipher ≡ some c
      → IsCorrect c.aead
      → c.aead.encrypt (nonce_bytes header.nonce) (header_bytes header) payload ≡ some (text, tag)
      → check_replay_window c.window header.nonce ≡ true
      → advance_replay_window profile c.window header.nonce ≡ some window
      → policy_allows_packet_type packets s.traffic_policy header.packet_type inbound payload ≡ true
      → s.has_tun ≡ true
      → writes payload ≡ true
      → (t : Node env) × (handle_incoming_frame env now header addr (text ++ tag) s
          ≡ (completed, t))
        × (t.written ≡ s.written ++ (payload ∷ []))
  unfolding handle_incoming_frame
  handle_incoming_frame_written now addr header peer c window room_id payload text tag s in_it room
        version_ok src origin dst one zero_ttl known keyed law e fresh advanced allowed tun
        accepted =
      let moved = record peer { cipher = some (record c { window = window }) } in
      let hit = count_hit env header.src_node (path_kind env addr peer.path_manager.paths) s in
      let pathed = with_path env now addr moved in
      let u = put_peer env header.src_node pathed hit in
      let (t, ends, written) =
        deliver-written now header addr pathed payload u allowed tun accepted in
      (
        t,
        ap (validated env now header addr (text ++ tag) s) (
              validate_incoming_header_unicast now room_id header s.incoming in_it room version_ok
                src origin dst (unicast_no_flood header one zero_ttl))
            ∙ ap (at_peer env now header addr (text ++ tag) s) known
            ∙ ap (opening env now header addr peer (text ++ tag) s) keyed
            ∙ ap (decrypted env now header addr peer c (text ++ tag) s) (encode_zero header)
            ∙ ap (after_decryption env now header addr peer c s) (
                decrypt_sealed profile c.aead c.window header.nonce (header_bytes header) payload
                  text tag law e fresh
                ∙ ap (λ (w : Option ReplayWindow). finish w payload) advanced)
            ∙ by_type-unicast now header addr pathed payload u header.packet_type one
            ∙ ends,
        written,
      )
