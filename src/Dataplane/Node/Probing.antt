-- ===== src/Dataplane/Node/Probing.antt =====
-- crates/r2n-dataplane/src/lib.rs, run_ping_loop: one tick. The peers that are pinged, and the paths
-- of each, are those at the start of the tick's second half, as the code clones them.
use r2n.Common.{ℕ, ◌+◌, ◌%◌, ◌^◌, Bool, false, Option, none, some, List, [], ◌∷◌, ◌==◌}
use r2n.Common.Maps.{Map, lookup}
use r2n.Common.Words.{be_bytes}
use r2n.Proto.{ping}
use r2n.Observability.{MetricsRegistry, check_ping_timeouts, record_ping_sent}
use r2n.Dataplane.Path.{PathInfo, active_addr, record_failure}
use r2n.Dataplane.Table.{DataPeer}
use r2n.Dataplane.Sealing.{Cipher}
use r2n.Dataplane.Node.{Env, Ending, completed, crashed, Node, put_peer, send_to_peer}
use r2n.Dataplane.Node.Handling.{logged}

abbrev pub ping_timeout : ℕ
ping_timeout = 2_000_000_000

module _ (env : Env) where
  open env use {floats}

  abbrev Peer : Type 0
  Peer = DataPeer floats Cipher

  abbrev pub failed_path : ℕ → ℕ → ℕ → Node env → Option Peer → Node env
  failed_path now k addr s none = s
  failed_path now k addr s (some peer) =
      put_peer env k
        (record peer { path_manager = record_failure floats now addr peer.path_manager }) s

  abbrev pub failed_paths : ℕ → List (ℕ × ℕ) → Node env → Node env
  failed_paths now [] s = s
  failed_paths now ((k, addr) ∷ lost) s =
      failed_paths now lost (failed_path now k addr s (lookup k s.plane.peers))

  abbrev pub timed_out : ℕ → Node env → List (ℕ × ℕ) × MetricsRegistry → Node env
  timed_out now s (lost, metrics) =
      failed_paths now lost (record s { incoming = record s.incoming { metrics = metrics } })

  abbrev pub sent_ping : ℕ → ℕ → ℕ → ℕ → Bool → Node env → Node env
  sent_ping now node_id seq addr is_active s = record s {
    incoming = record s.incoming {
      metrics = record_ping_sent now node_id seq addr is_active s.incoming.metrics;
    };
  }

  abbrev pub ping_peer : ℕ → ℕ → ℕ → Node env → Option Peer → Ending × Node env
  ping_peer k seq addr s none = (completed, s)
  ping_peer k seq addr s (some peer) =
      logged env (send_to_peer env k peer ping (be_bytes 4 seq) (some addr) false s)

  -- The paths of one peer, with the next sequence number.
  abbrev pub ping_paths :
      ℕ → ℕ → ℕ → ℕ → List (PathInfo floats) → ℕ × (Ending × Node env) → ℕ × (Ending × Node env)
  ping_paths now k node_id active [] r = r
  ping_paths now k node_id active (p ∷ ps) (seq, (completed, s)) =
      let t = sent_ping now node_id seq p.addr (p.addr == active) s in
      ping_paths now k node_id active ps
        ((seq + 1) % 2 ^ 32, ping_peer k seq p.addr t (lookup k t.plane.peers))
  ping_paths now k node_id active (p ∷ ps) r = r

  abbrev pub paths_of : ℕ → ℕ → Peer → Option ℕ → ℕ × (Ending × Node env) → ℕ × (Ending × Node env)
  paths_of now k peer none (seq, (e, s)) = (seq, (crashed, s))
  paths_of now k peer (some active) r =
      ping_paths now k peer.info.node_id active peer.path_manager.paths r

  abbrev pub ping_all : ℕ → Map Peer → ℕ × (Ending × Node env) → ℕ × (Ending × Node env)
  ping_all now [] r = r
  ping_all now ((k, peer) ∷ peers) (seq, (completed, s)) =
      ping_all now peers
        (paths_of now k peer (active_addr floats peer.path_manager) (seq, (completed, s)))
  ping_all now ((k, peer) ∷ peers) r = r

  abbrev pub in_some_room : ℕ → ℕ → Node env → Option ℕ → ℕ × (Ending × Node env)
  in_some_room now seq s none = (seq, (completed, s))
  in_some_room now seq s (some room_id) =
      let t = timed_out now s (check_ping_timeouts now ping_timeout s.incoming.metrics) in
      ping_all now t.plane.peers (seq, (completed, t))

  -- One tick, from the next sequence number on.
  unfoldable pub ping_tick : ℕ → ℕ → Node env → ℕ × (Ending × Node env)
  ping_tick now next_ping_seq s = in_some_room now next_ping_seq s s.incoming.room_id
