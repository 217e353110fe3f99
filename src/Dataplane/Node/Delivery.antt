-- ===== src/Dataplane/Node/Delivery.antt =====
-- crates/r2n-edge-lib/src/lib.rs, the loop that receives datagrams: what a data frame does. Two
-- nodes: what the one sends the other receives.
use r2n.Common.{
  ℕ, ◌+◌, ◌≤◌, ◌≡◌, ◌≢◌, ◌⊎◌, refl, ap, ◌∙◌, true, false, Option, none, some, List, [], ◌∷◌, ◌++◌,
  Result, ok, err, arith, length, length-append,
}
use r2n.Common.Maps.{lookup}
use r2n.Proto.{DataPacketType, data_header_size, slice, IsTyped}
use r2n.Proto.RoundTrip.{header_bytes}
use r2n.Crypto.{ReplayWindow, nonce_bytes, check_replay_window, advance_replay_window}
use r2n.Crypto.RoundTrip.{IsCorrect}
use r2n.Policy.{inbound}
use r2n.Slab.{PacketSlab, PacketDesc, acquire, get_slot_slice}
use r2n.Supernode.Frames.{ControlFrame}
use r2n.Transport.{TransportPacket, TransportError, control_packet, data_packet, recv_packet}
use r2n.Transport.Framing.{recv_packet-header_bytes, slice-header_bytes_body}
use r2n.Dataplane.Frames.{policy_allows_packet_type}
use r2n.Dataplane.Table.{DataPeer}
use r2n.Dataplane.Path.{active_addr}
use r2n.Dataplane.Sealing.{Cipher}
use r2n.Dataplane.Node.{Env, Ending, completed, Node, send_to_peer, max_dataplane_payload}
use r2n.Dataplane.Node.Handling.{logged, handle_incoming_frame}
use r2n.Dataplane.Node.Sending.{sent_header, send_to_peer_sent}
use r2n.Dataplane.Node.Receiving.{is_unicast, handle_incoming_frame_written}

module _ (env : Env) where
  -- `none` is a control frame, or an error of the transport, which this does not handle.
  abbrev pub on_packet :
      ℕ → ℕ → List ℕ → Node env → Result TransportError TransportPacket → Option (Ending × Node env)
  on_packet now addr buf s (ok (data_packet header (from, to))) =
      some (logged env (handle_incoming_frame env now header addr (slice from to buf) s))
  on_packet now addr buf s (ok (control_packet frame)) = none
  on_packet now addr buf s (err e) = none

  pub receive_datagram :
      (List ℕ → Option ControlFrame) → ℕ → ℕ → List ℕ → Node env → Option (Ending × Node env)
  receive_datagram parse_control now addr buf s =
      on_packet now addr buf s (recv_packet parse_control buf)

module _ (here there : Env) where
  -- A packet that this node seals for a peer goes to the address that is given, or to that of the
  -- peer's active path where none is, and is written to the peer's tunnel as it was. The packet fits a frame, goes to one node and is encrypted without an error by a cipher
  -- that decrypts what it encrypts; the header's fields fit their widths; this node is in a room,
  -- has a slot to build the frame in, and the frame can be sent. The peer is another node of the
  -- room and knows this one under the same key; its window lets the nonce pass and can be advanced,
  -- its policy lets the packet in, and its tunnel takes it.
  pub receive_datagram-send_to_peer :
      (k : ℕ) (override : Option ℕ) (target room_id now addr : ℕ)
      (peer : DataPeer here.floats Cipher) (c : Cipher) (packet_type : DataPacketType)
      (payload : List ℕ) (s : Node here) (desc : PacketDesc) (slab : PacketSlab here.queues)
      (slot text tag : List ℕ) (back : DataPeer there.floats Cipher) (window moved : ReplayWindow)
      (r : Node there) (parse_control : List ℕ → Option ControlFrame)
      → let header =
          sent_header here s.incoming.local_node_id room_id peer packet_type
            (length payload + 16) in
        let frame = header_bytes header ++ (text ++ tag) in
        IsTyped header
        → is_unicast packet_type ≡ true
        → length payload ≤ max_dataplane_payload
        → s.incoming.room_id ≡ some room_id
        → acquire here.queues s.slab ≡ some (desc, slab)
        → get_slot_slice here.queues desc slab ≡ some slot
        → 1600 ≤ length slot
        → peer.cipher ≡ some c
        → IsCorrect c.aead
        → c.aead.encrypt (nonce_bytes peer.next_nonce) (header_bytes header) payload
          ≡ some (text, tag)
        → (override ≡ some target)
          ⊎ ((override ≡ none) × (active_addr here.floats peer.path_manager ≡ some target))
        → here.sends target frame ≡ true
        → peer.info.node_id ≡ r.incoming.local_node_id
        → s.incoming.local_node_id ≢ r.incoming.local_node_id
        → r.incoming.room_id ≡ some room_id
        → lookup s.incoming.local_node_id r.plane.peers ≡ some back
        → back.cipher ≡ some (record { aead = c.aead; window = window })
        → check_replay_window window peer.next_nonce ≡ true
        → advance_replay_window there.profile window peer.next_nonce ≡ some moved
        → policy_allows_packet_type there.packets r.traffic_policy packet_type inbound payload
          ≡ true
        → r.has_tun ≡ true
        → there.writes payload ≡ true
        → (t : Node here) × (u : Node there) × (send_to_peer here k peer packet_type payload
              override false s
            ≡ (completed, t))
          × (t.sent ≡ s.sent ++ ((target, frame) ∷ []))
          × (receive_datagram there parse_control now addr frame r ≡ some (completed, u))
          × (u.written ≡ r.written ++ (payload ∷ []))
  unfolding receive_datagram
  receive_datagram-send_to_peer k override target room_id now addr peer c packet_type payload s desc
        slab slot text tag back window moved r parse_control typed one small in_it got exists long
        keyed law e to accepted to_peer other room known shared fresh advanced allowed tun takes =
      let header =
        sent_header here s.incoming.local_node_id room_id peer packet_type (length payload + 16) in
      let body = text ++ tag in
      let text_len = law.text_length _ _ _ _ _ e in
      let tag_len = law.tag_length _ _ _ _ _ e in
      let (t, ends, sent, freed) =
        send_to_peer_sent here k peer c packet_type payload override target room_id s desc slab slot
          text tag small in_it got exists long keyed law e to accepted in
      let (u, handled, written) =
        handle_incoming_frame_written there now addr header back
          (record { aead = c.aead; window = window }) moved room_id payload text tag r room refl
          refl other other to_peer one refl known shared law e fresh advanced allowed tun takes in
      let sized : header.payload_len ≡ length body =
        omega (arith, text_len, tag_len, small, length-append text tag) in
      let behind : slice data_header_size (data_header_size + length body)
            (header_bytes header ++ body)
          ≡ body =
        slice-header_bytes_body header body in
      (
        t,
        u,
        ends,
        sent,
        ap (on_packet there now addr (header_bytes header ++ body) r)
              (recv_packet-header_bytes parse_control header body typed refl sized)
            ∙ ap
                (λ (b : List ℕ).
                  some (logged there (handle_incoming_frame there now header addr b r)))
                behind
            ∙ ap (λ (x : Ending × Node there). some (logged there x)) handled,
        written,
      )
