-- ===== src/Dataplane/Node/Handling.antt =====
-- crates/r2n-dataplane/src/lib.rs, handle_incoming_frame: what is done with a received frame.
use r2n.Common.{
  ℕ, Bool, true, false, not, Option, none, some, List, [], ◌∷◌, ◌++◌, Result, ok, err, length, take,
  ltb, if◌then◌else◌,
}
use r2n.Common.Maps.{lookup}
use r2n.Common.Words.{from_be}
use r2n.Proto.{DataHeader, DataHeaderError, DataPacketType, ping, pong, ethernet, encode_into}
use r2n.Crypto.{ReplayWindow, Outcome, done, failed, panicked, decrypt_in_place}
use r2n.Policy.{inbound}
use r2n.Observability.{MetricsRegistry, record_pong_received}
use r2n.Dataplane.Frames.{ethernet_macs, policy_allows_packet_type}
use r2n.Dataplane.Path.{add_or_update_path, record_success}
use r2n.Dataplane.Table.{DataPeer, set_direct_path, learn_mac}
use r2n.Dataplane.Incoming.{Incoming, validate_incoming_header}
use r2n.Dataplane.Sealing.{Cipher, zero_header}
use r2n.Dataplane.Node.{
  Env, Ending, completed, errored, crashed, Node, put_peer, count_hit, count_drop, is_relay_path,
  path_kind, send_to_peer,
}

abbrev pub is_ethernet : DataPacketType → Bool
is_ethernet ethernet = true
is_ethernet _ = false

module _ (env : Env) where
  open env use {floats, packets, profile, writes, to_float}

  abbrev Peer : Type 0
  Peer = DataPeer floats Cipher

  -- `prepare_packet_for_local_tun` changes nothing but on macOS, which this is not.
  abbrev pub to_tun : List ℕ → Node env → Ending × Node env
  to_tun packet s =
      if s.has_tun
      then (if writes packet
          then (completed, record s { written = s.written ++ (packet ∷ []) })
          else (errored, s))
      else (completed, s)

  abbrev pub learned : ℕ → ℕ → Option (ℕ × ℕ) → Node env → Node env
  learned now src none s = s
  learned now src (some (dst_mac, src_mac)) s = record s {
    plane = record s.plane { mac_table = learn_mac now src_mac src s.plane.mac_table };
  }

  abbrev pub learn_from : ℕ → DataHeader → List ℕ → Node env → Node env
  learn_from now header packet s =
      if is_ethernet header.packet_type
      then learned now header.src_node (ethernet_macs packet) s
      else s

  -- A packet other than a ping or a pong.
  abbrev pub deliver : ℕ → DataHeader → ℕ → Peer → List ℕ → Node env → Ending × Node env
  deliver now header addr peer packet s =
      let direct = if is_relay_path env addr peer.path_manager.paths then s else record s {
        plane = set_direct_path floats Cipher now header.src_node addr none s.plane;
      } in
      let t = learn_from now header packet direct in
      if not (policy_allows_packet_type packets t.traffic_policy header.packet_type inbound packet)
      then (completed, count_drop env (some header.src_node) t)
      else to_tun packet t

  abbrev pub answered :
      ℕ → ℕ → Peer → Node env → Option (ℕ × ℕ) × MetricsRegistry → Ending × Node env
  answered now src peer s (none, metrics) =
      (completed, record s { incoming = record s.incoming { metrics = metrics } })
  answered now src peer s (some (ping_addr, rtt), metrics) = (
    completed,
    put_peer env src
        (record peer {
          path_manager = record_success floats now ping_addr (to_float rtt) peer.path_manager;
        })
        (record s { incoming = record s.incoming { metrics = metrics } }),
  )

  abbrev pub on_pong : ℕ → DataHeader → Peer → List ℕ → Node env → Ending × Node env
  on_pong now header peer packet s =
      if ltb (length packet) 4
      then (completed, s)
      else answered now header.src_node peer s
          (record_pong_received now header.src_node (from_be (take 4 packet)) s.incoming.metrics)

  -- An error of the answer is only logged.
  abbrev pub logged : Ending × Node env → Ending × Node env
  logged (crashed, s) = (crashed, s)
  logged (_, s) = (completed, s)

  abbrev pub by_type :
      ℕ → DataHeader → ℕ → Peer → List ℕ → Node env → DataPacketType → Ending × Node env
  by_type now header addr peer packet s ping =
      logged (send_to_peer env header.src_node peer pong packet (some addr) false s)
  by_type now header addr peer packet s pong = on_pong now header peer packet s
  by_type now header addr peer packet s _ = deliver now header addr peer packet s

  -- `paths.iter().any(..)`, and the path that is learned of a frame's source.
  abbrev pub with_path : ℕ → ℕ → Peer → Peer
  with_path now addr peer = record peer {
    path_manager = (add_or_update_path floats now addr false peer.path_manager).1;
  }

  -- What is done with the decrypted packet, at the peer that its frame came from.
  abbrev pub opened : ℕ → DataHeader → ℕ → Peer → List ℕ → Node env → Ending × Node env
  opened now header addr peer packet s =
      let hit = count_hit env header.src_node (path_kind env addr peer.path_manager.paths) s in
      let known = with_path now addr peer in
      by_type now header addr known packet (put_peer env header.src_node known hit)
        header.packet_type

  abbrev pub after_decryption :
      ℕ
      → DataHeader
      → ℕ
      → Peer
      → Cipher
      → Node env
      → Outcome (ReplayWindow × List ℕ)
      → Ending × Node env
  after_decryption now header addr peer c s (done (window, packet)) =
      opened now header addr (record peer { cipher = some (record c { window = window }) }) packet s
  after_decryption now header addr peer c s failed = (errored, s)
  after_decryption now header addr peer c s panicked = (crashed, s)

  abbrev pub decrypted :
      ℕ
      → DataHeader
      → ℕ
      → Peer
      → Cipher
      → List ℕ
      → Node env
      → Result DataHeaderError (List ℕ)
      → Ending × Node env
  decrypted now header addr peer c payload s (err e) = (crashed, s)
  decrypted now header addr peer c payload s (ok header_buf) =
      after_decryption now header addr peer c s
        (decrypt_in_place c.aead profile c.window header.nonce header_buf payload)

  abbrev pub opening :
      ℕ → DataHeader → ℕ → Peer → List ℕ → Node env → Option Cipher → Ending × Node env
  opening now header addr peer payload s none = opened now header addr peer payload s
  opening now header addr peer payload s (some c) =
      decrypted now header addr peer c payload s (encode_into header zero_header)

  abbrev pub at_peer : ℕ → DataHeader → ℕ → List ℕ → Node env → Option Peer → Ending × Node env
  at_peer now header addr payload s none = (completed, s)
  at_peer now header addr payload s (some peer) = opening now header addr peer payload s peer.cipher

  abbrev pub validated :
      ℕ → DataHeader → ℕ → List ℕ → Node env → Bool × Incoming → Ending × Node env
  validated now header addr payload s (false, incoming) =
      (completed, record s { incoming = incoming })
  validated now header addr payload s (true, incoming) =
      at_peer now header addr payload (record s { incoming = incoming })
        (lookup header.src_node s.plane.peers)

  -- `payload` is the frame behind its header, and `addr` where it came from.
  unfoldable pub handle_incoming_frame : ℕ → DataHeader → ℕ → List ℕ → Node env → Ending × Node env
  handle_incoming_frame now header addr payload s =
      validated now header addr payload s (validate_incoming_header now header s.incoming)
