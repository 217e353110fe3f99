-- ===== src/Supernode/Relay/Passing.antt =====
-- A frame is passed on as it came.
use r2n.Common.{
  ℕ, ◌≤◌, ◌≡◌, refl, sym, ap, ◌∙◌, Bool, true, some, List, [], ◌∷◌, ◌++◌, arith, length, take, drop,
  le→ltb, le→leb, take-append, length-append,
}
use mathlib.Core.List.{append-nil}
use r2n.Common.Maps.{lookup}
use r2n.Proto.{DataHeader, frame_len}
use r2n.Slab.{
  ArrayQueue, PacketSlab, PacketDesc, default_frame_cap, acquire, release, get_slot_slice,
}
use r2n.Slab.Access.{with_slot_mut-access}
use r2n.Supernode.{Env, NodeInfo}
use r2n.Supernode.Relay.{
  Job, Relay, touch, copy_frame, start_job, in_slot, to_node, relay_frame, finish_job, sent_frame,
  run_job,
}

module _ (env : Env) (queues : ArrayQueue) (sends_raw : ℕ → List ℕ → Bool) where
  copy_frame_lem :
      (n : ℕ) (buf slot : List ℕ)
      → n ≡ length buf
      → length buf ≤ length slot
      → copy_frame env queues sends_raw n buf slot ≡ (true, buf ++ drop n slot)
  copy_frame_lem n buf slot e fits =
      let whole : take n buf ≡ buf =
        ap (take n) (sym (append-nil buf)) ∙ take-append n buf [] (sym e) in
      rw
        (
          le→leb n (length slot) (omega (arith, e, fits)),
          le→leb n (length buf) (omega (arith, e)),
          whole,
        )
        refl

  -- A frame for a node that is known, no longer than a slot, is copied to a free slot, and the task
  -- gives the slot back whether the frame can be sent or not; if it can, the bytes that are sent to
  -- the node are those that came.
  pub run_job-relay_frame :
      (now addr : ℕ) (header : DataHeader) (buf slot : List ℕ) (target : NodeInfo env)
      (desc : PacketDesc) (slab : PacketSlab queues) (s : Relay env queues sends_raw)
      → lookup header.dst_node (touch env queues sends_raw now addr s.supernode).nodes ≡ some target
      → acquire queues s.slab ≡ some (desc, slab)
      → get_slot_slice queues desc slab ≡ some slot
      → default_frame_cap ≤ length slot
      → frame_len header ≡ length buf
      → length buf ≤ default_frame_cap
      → let job : Job = record {
        desc = desc;
        frame_len = frame_len header;
        target_addr = target.addr;
      } in
        (t : Relay env queues sends_raw) × (u : Relay env queues sends_raw) × (relay_frame env
            queues sends_raw now header buf addr s
          ≡ some t)
        × (t.jobs ≡ s.jobs ++ (job ∷ []))
        × (run_job env queues sends_raw job t ≡ some u)
        × (u.slab.free ≡ queues.push desc.slot slab.free)
        × (sends_raw target.addr buf ≡ true → u.relayed ≡ s.relayed ++ ((target.addr, buf) ∷ []))
  unfolding relay_frame run_job release
  run_job-relay_frame now addr header buf slot target desc slab s known got exists cap sized small =
      let n = frame_len header in
      let job : Job = record { desc = desc; frame_len = n; target_addr = target.addr } in
      let s0 = record s { supernode = touch env queues sends_raw now addr s.supernode } in
      let (w, wrote, kept, reads) =
        with_slot_mut-access queues desc (copy_frame env queues sends_raw n buf) slab slot exists in
      let copied = copy_frame_lem n buf slot sized (omega (arith, cap, small)) in
      let t = record s0 { slab = w; jobs = s.jobs ++ (job ∷ []) } in
      (
        t,
        sent_frame env queues sends_raw job buf t,
        ap (to_node env queues sends_raw n buf s0) known
            ∙ ap (in_slot env queues sends_raw n buf target.addr s0) got
            ∙ (rw (le→ltb default_frame_cap n (omega (arith, sized, small))) refl)
            ∙ ap (start_job env queues sends_raw desc n target.addr s0)
                (wrote ∙ ap (λ (r : Bool × List ℕ). some (r.0, w)) copied),
        refl,
        ap (finish_job env queues sends_raw job t)
              (reads desc refl ∙ ap (λ (r : Bool × List ℕ). some r.1) copied)
            ∙ rw
                (
                  le→leb n (length (buf ++ drop n slot))
                      (omega (arith, sized, length-append buf (drop n slot))),
                  take-append n buf (drop n slot) (sym sized),
                )
                refl,
        ap (queues.push desc.slot) kept,
        λ ok. rw ok refl,
      )
