-- ===== src/Dataplane/Node/Sending.antt =====
-- What send_to_peer puts on the wire for a peer that has a cipher.
use r2n.Common.{
  ℕ, ◌+◌, ◌%◌, ◌^◌, ◌≤◌, ◌≡◌, refl, sym, ap, ◌∙◌, true, false, Option, none, some, ◌⊎◌, inl, inr,
  List, [], ◌∷◌, ◌++◌, arith, length, take, length-append, take-append, le→leb, le→ltb,
}
use mathlib.Core.List.{append_assoc}
use r2n.Proto.{DataHeader, DataPacketType, data_header_size}
use r2n.Proto.RoundTrip.{header_bytes, length-header_bytes}
use r2n.Crypto.{Outcome, nonce_bytes}
use r2n.Crypto.RoundTrip.{IsCorrect}
use r2n.Qos
use r2n.Qos.{classify_packet}
use r2n.Slab.{PacketSlab, PacketDesc, acquire, release, get_slot_slice, with_slot_mut}
use r2n.Slab.Access.{get_slot_slice_slot, with_slot_mut-access}
use r2n.Dataplane.Frames.{map_class}
use r2n.Dataplane.Table.{DataPeer}
use r2n.Dataplane.Path.{active_addr}
use r2n.Dataplane.Sealing.{Cipher, with_len, seal}
use r2n.Dataplane.Sealing.Opening.{seal_encrypted}
use r2n.Dataplane.Node.{
  Env, completed, Node, put_peer, count_hit, path_kind, frame_header, dropped, transmit_slot,
  after_sealing, to_target, target_for, send_to_peer, max_dataplane_payload,
}

module _ (env : Env) where
  open env use {floats, queues, profile, parse, sends}

  -- The header of the frame that holds `n` bytes behind it and is not flooded.
  abbrev pub sent_header : ℕ → ℕ → DataPeer floats Cipher → DataPacketType → ℕ → DataHeader
  sent_header local_node_id room_id peer packet_type n =
      with_len n (frame_header env local_node_id room_id peer packet_type 0 0)

  cut_slot : (a b c : List ℕ) (n : ℕ) → n ≡ length a + length b → take n (a ++ (b ++ c)) ≡ a ++ b
  cut_slot a b c n e =
      rw (← append_assoc a b c) (take-append n (a ++ b) c (omega (arith, e, length-append a b)))

  -- The node once a frame is sent.
  abbrev pub after_sending : PacketDesc → ℕ → List ℕ → Node env → Node env
  after_sending desc target frame s = record s {
    sent = s.sent ++ ((target, frame) ∷ []);
    scheduler = dropped env (Qos.pop s.scheduler) s.scheduler;
    slab = release queues desc s.slab;
  }

  transmit_slot_lem :
      (desc : PacketDesc) (target : ℕ) (s : Node env) (slot frame : List ℕ)
      → desc.len ≤ length slot
      → take desc.len slot ≡ frame
      → sends target frame ≡ true
      → transmit_slot env desc target s (some slot) ≡ (completed, after_sending desc target frame s)
  transmit_slot_lem desc target s slot frame fits cut accepted =
      rw (le→leb _ _ fits, cut, accepted) refl

  target_for_lem :
      (peer : DataPeer floats Cipher) (override : Option ℕ) (target : ℕ)
      → (override ≡ some target)
        ⊎ ((override ≡ none) × (active_addr floats peer.path_manager ≡ some target))
      → target_for env peer override ≡ some target
  target_for_lem peer override target (inl e) = rw e refl
  target_for_lem peer override target (inr (e, at)) = rw e at

  pub send_to_peer_sent :
      (k : ℕ) (peer : DataPeer floats Cipher) (c : Cipher) (packet_type : DataPacketType)
      (payload : List ℕ) (override : Option ℕ) (target room_id : ℕ) (s : Node env)
      (desc : PacketDesc) (slab : PacketSlab queues) (slot text tag : List ℕ)
      → length payload ≤ max_dataplane_payload
      → s.incoming.room_id ≡ some room_id
      → acquire queues s.slab ≡ some (desc, slab)
      → get_slot_slice queues desc slab ≡ some slot
      → 1600 ≤ length slot
      → peer.cipher ≡ some c
      → IsCorrect c.aead
      → let header =
          sent_header s.incoming.local_node_id room_id peer packet_type (length payload + 16) in
        c.aead.encrypt (nonce_bytes peer.next_nonce) (header_bytes header) payload
          ≡ some (text, tag)
        → (override ≡ some target)
          ⊎ ((override ≡ none) × (active_addr floats peer.path_manager ≡ some target))
        → sends target (header_bytes header ++ (text ++ tag)) ≡ true
        → (t : Node env) × (send_to_peer env k peer packet_type payload override false s
            ≡ (completed, t))
          × (t.sent ≡ s.sent ++ ((target, header_bytes header ++ (text ++ tag)) ∷ []))
          × (t.slab.free ≡ queues.push desc.slot slab.free)
  unfolding send_to_peer release
  send_to_peer_sent k peer c packet_type payload override target room_id s desc slab slot text tag
        small placed got exists long keyed law e to accepted =
      let n = length payload + 16 in
      let header = frame_header env s.incoming.local_node_id room_id peer packet_type 0 0 in
      let class = classify_packet parse packet_type payload in
      let placed_desc : PacketDesc = record desc {
        class = map_class class;
        data_offset = 0;
        payload_offset = data_header_size;
      } in
      let full : PacketDesc = record placed_desc { len = data_header_size + n } in
      let next = record peer { next_nonce = (peer.next_nonce + 1) % 2 ^ 64 } in
      let queued = put_peer env k next (record s { slab = slab }) in
      let bytes = header_bytes (with_len n header) in
      let (rest, sealed) =
        seal_encrypted profile c header payload slot text tag law (omega arith) e in
      let (u, wrote, kept, reads) =
        with_slot_mut-access queues placed_desc (seal profile (some c) header payload) slab slot
          (get_slot_slice_slot queues placed_desc desc slab refl ∙ exists) in
      let filled = record queued { slab = u; scheduler = Qos.push class full s.scheduler } in
      let hit =
        count_hit env peer.info.node_id (path_kind env target peer.path_manager.paths) filled in
      let text_len = law.text_length _ _ _ _ _ e in
      let tag_len = law.tag_length _ _ _ _ _ e in
      let cut : take full.len (bytes ++ (text ++ (tag ++ rest))) ≡ bytes ++ (text ++ tag) =
        ap (take full.len) (ap (◌++◌ bytes) (sym (append_assoc text tag rest)))
        ∙ cut_slot bytes (text ++ tag) rest full.len (
            omega (
              arith,
              text_len,
              tag_len,
              length-append text tag,
              length-header_bytes (with_len n header),
            )) in
      let fits : full.len ≤ length (bytes ++ (text ++ (tag ++ rest))) = omega (
        arith,
        text_len,
        tag_len,
        length-append bytes (text ++ (tag ++ rest)),
        length-append text (tag ++ rest),
        length-append tag rest,
        length-header_bytes (with_len n header),
      ) in
      (
        after_sending full target (bytes ++ (text ++ tag)) hit,
        (rw (le→ltb max_dataplane_payload (length payload) small, placed, got) refl)
            ∙ ap
                (λ (cipher : Option Cipher).
                  after_sealing env peer class placed_desc override queued
                    (with_slot_mut queues placed_desc (seal profile cipher header payload) slab))
                keyed
            ∙ ap (after_sealing env peer class placed_desc override queued)
                (wrote ∙ ap (λ (r : Outcome ℕ × List ℕ). some (r.0, u)) sealed)
            ∙ ap (to_target env peer full filled) (target_for_lem peer override target to)
            ∙ ap (transmit_slot env full target hit)
                (reads full refl ∙ ap (λ (r : Outcome ℕ × List ℕ). some r.1) sealed)
            ∙ transmit_slot_lem full target hit (bytes ++ (text ++ (tag ++ rest)))
                (bytes ++ (text ++ tag)) fits cut accepted,
        refl,
        ap (queues.push desc.slot) kept,
      )
