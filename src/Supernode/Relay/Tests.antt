-- ===== src/Supernode/Relay/Tests.antt =====
-- A frame for the node of the supernode's tests.
use r2n.Common.{ℕ, ◌≡◌, refl, Bool, true, some, List, [], ◌∷◌, arith, replicate, length-replicate}
use r2n.Common.Maps.{lookup, insert}
use r2n.Proto.{DataHeader, ipv4, frame_len}
use r2n.Slab.{PacketDesc, bulk, acquire, get_slot_slice}
use r2n.Slab.Tests.{list_queue}
use r2n.Supernode.Tests.{env, node, state}
use r2n.Supernode.Relay.{Job, Relay, relay_frame, run_job}
use r2n.Supernode.Relay.Passing.{run_job-relay_frame}

abbrev header : DataHeader
header = record {
  version = 2;
  flags = 0;
  packet_type = ipv4;
  reserved = 0;
  ttl = 0;
  room_id = 1;
  src_node = 8;
  dst_node = 7;
  origin_node = 8;
  session_id = 0;
  nonce = 1;
  packet_id = 0;
  payload_len = 2;
}

abbrev buf : List ℕ
buf = replicate 150 9

abbrev slots : List (List ℕ)
slots = replicate 2 (replicate 1600 0)

abbrev sends_raw : ℕ → List ℕ → Bool
sends_raw addr frame = true

abbrev desc : PacketDesc
desc = record { slot = 0; data_offset = 0; payload_offset = 128; len = 0; class = bulk }

abbrev relay : Relay env list_queue sends_raw
relay = record {
  supernode = state;
  slab = record { slots = slots; free = (0 ∷ 1 ∷ [], 2); headroom = 128 };
  jobs = [];
  relayed = [];
}

abbrev job : Job
job = record { desc = desc; frame_len = 150; target_addr = 50 }

run_job-relay_frame_example :
    (t : Relay env list_queue sends_raw) × (u : Relay env list_queue sends_raw) × (relay_frame env
        list_queue sends_raw 9 header buf 60 relay
      ≡ some t)
    × (t.jobs ≡ job ∷ [])
    × (run_job env list_queue sends_raw job t ≡ some u)
    × (u.slab.free ≡ (1 ∷ 0 ∷ [], 2))
    × (true ≡ true → u.relayed ≡ (50, buf) ∷ [])
unfolding lookup insert acquire get_slot_slice frame_len
run_job-relay_frame_example =
    run_job-relay_frame env list_queue sends_raw 9 60 header buf (replicate 1600 0) node desc
      (record { slots = slots; free = (1 ∷ [], 2); headroom = 128 }) relay refl refl refl
      (omega (arith, length-replicate {A = ℕ} 1600 0)) refl (omega arith)
