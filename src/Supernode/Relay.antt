-- ===== src/Supernode/Relay.antt =====
-- crates/r2n-supernode-lib/src/lib.rs, the loop of run: a data frame that is relayed. The frame is
-- copied to a slot of the slab; the task that is started then sends it and gives the slot back.
pub mod Passing
mod Tests
use r2n.Common.{
  ℕ, ◌+◌, ◌≤◌, ◌≡◌, ◌&&◌, refl, ap, ◌∙◌, Bool, true, false, Option, none, some, List, [], ◌∷◌, ◌++◌,
  arith, length, take, drop, ltb, leb, le→ltb, le→leb, length-take, take-append, length-append,
  if◌then◌else◌,
}
use r2n.Common.Maps.{lookup, insert}
use r2n.Proto.{DataHeader, frame_len}
use r2n.Slab.{
  ArrayQueue, PacketSlab, PacketDesc, default_frame_cap, acquire, release, with_slot_mut,
  get_slot_slice,
}
use r2n.Supernode.{Env, NodeInfo, Supernode}

-- A frame that waits to be sent.
pub record Job : Type 0 where
  pub desc : PacketDesc
  pub frame_len : ℕ
  pub target_addr : ℕ

module _ (env : Env) (queues : ArrayQueue) (sends_raw : ℕ → List ℕ → Bool) where
  pub record Relay : Type 0 where
    pub supernode : Supernode env
    pub slab : PacketSlab queues
    pub jobs : List Job
    pub relayed : List (ℕ × List ℕ)

  abbrev pub seen_node : ℕ → ℕ → Supernode env → Option (NodeInfo env) → Supernode env
  seen_node now node_id s none = s
  seen_node now node_id s (some node) = record s {
    nodes = insert node_id (record node { last_seen = now }) s.nodes;
  }

  abbrev pub seen_at : ℕ → Supernode env → Option ℕ → Supernode env
  seen_at now s none = s
  seen_at now s (some node_id) = seen_node now node_id s (lookup node_id s.nodes)

  -- The node at an address was heard of.
  abbrev pub touch : ℕ → ℕ → Supernode env → Supernode env
  touch now addr s = seen_at now s (lookup addr s.addr_to_node)

  -- `slot[..frame_len].copy_from_slice(&recv_buf[..frame_len])`; false is a panic.
  abbrev pub copy_frame : ℕ → List ℕ → List ℕ → Bool × List ℕ
  copy_frame n buf slot =
      if leb n (length slot) && leb n (length buf)
      then (true, take n buf ++ drop n slot)
      else (false, slot)

  -- `none` is a panic.
  abbrev pub start_job :
      PacketDesc → ℕ → ℕ → Relay → Option (Bool × PacketSlab queues) → Option Relay
  start_job desc n target_addr s none = none
  start_job desc n target_addr s (some (false, slab)) = none
  start_job desc n target_addr s (some (true, slab)) = some (record s {
    slab = slab;
    jobs = s.jobs ++ (record { desc = desc; frame_len = n; target_addr = target_addr } ∷ []);
  })

  abbrev pub in_slot :
      ℕ → List ℕ → ℕ → Relay → Option (PacketDesc × PacketSlab queues) → Option Relay
  in_slot n buf target_addr s none = some s
  in_slot n buf target_addr s (some (desc, slab)) =
      if ltb default_frame_cap n
      then some (record s { slab = release queues desc slab })
      else start_job desc n target_addr s (with_slot_mut queues desc (copy_frame n buf) slab)

  abbrev pub to_node : ℕ → List ℕ → Relay → Option (NodeInfo env) → Option Relay
  to_node n buf s none = some s
  to_node n buf s (some target) = in_slot n buf target.addr s (acquire queues s.slab)

  -- A data frame that is received.
  pub relay_frame : ℕ → DataHeader → List ℕ → ℕ → Relay → Option Relay
  relay_frame now header buf addr s =
      let t = record s { supernode = touch now addr s.supernode } in
      to_node (frame_len header) buf t (lookup header.dst_node t.supernode.nodes)

  abbrev pub sent_frame : Job → List ℕ → Relay → Relay
  sent_frame job frame s = record s {
    slab = release queues job.desc s.slab;
    relayed =
        if sends_raw job.target_addr frame
        then s.relayed ++ ((job.target_addr, frame) ∷ [])
        else s.relayed;
  }

  abbrev pub finish_job : Job → Relay → Option (List ℕ) → Option Relay
  finish_job job s none = none
  finish_job job s (some slot) =
      if leb job.frame_len (length slot)
      then some (sent_frame job (take job.frame_len slot) s)
      else none

  -- The task of one job; an error of the send is only logged.
  pub run_job : Job → Relay → Option Relay
  run_job job s = finish_job job s (get_slot_slice queues job.desc s.slab)
