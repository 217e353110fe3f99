-- ===== src/Qos/Tests.antt =====
-- Runs of the scheduler, and its theorems at concrete inputs.
use r2n.Common.{ℕ, ◌≤◌, ◌≡◌, refl, ◌↔◌, ◌≢◌, some, List, [], ◌∷◌, ◌++◌, length, max}
use r2n.Proto.{ipv4}
use r2n.Qos.{
  TrafficClass, control, realtime, bulk, IpParser, QosScheduler, new, push, pop, classify_packet,
}
use r2n.Qos.Classes.{classify_packet-eq-bulk, IsIp, IsPlainTcp}
use r2n.Qos.Order.{
  pushes, pops, to_list, queue, PopsFront, pop-PopsFront, push_split, run, run-new_bounded,
}

abbrev mixed : QosScheduler ℕ
mixed = record {
  control_queue = [];
  realtime_queue = 2 ∷ [];
  interactive_queue = [];
  bulk_queue = 1 ∷ 4 ∷ [];
  bulk_capacity = 2;
}

priority_order :
    to_list {T = ℕ} (push control 3 (push realtime 2 (push bulk 1 (new 8)))) ≡ 3 ∷ 2 ∷ 1 ∷ []
unfolding push new
priority_order = refl

full_bulk : to_list (push bulk 9 mixed) ≡ 2 ∷ 4 ∷ 9 ∷ []
unfolding push
full_bulk = refl

abbrev tcp_only : IpParser
tcp_only payload = some (6, payload)

classify_packet-eq-bulk_case :
    (classify_packet tcp_only ipv4 (0 ∷ []) ≡ bulk) ↔ (IsIp ipv4 × IsPlainTcp (tcp_only (0 ∷ [])))
classify_packet-eq-bulk_case = classify_packet-eq-bulk tcp_only ipv4 (0 ∷ [])

pop-PopsFront_case : PopsFront (2 ∷ 1 ∷ 4 ∷ []) 2 (pop mixed)
pop-PopsFront_case = pop-PopsFront mixed

push_split_case :
    (dropped kept : List ℕ) × (1 ∷ 4 ∷ [] ≡ dropped ++ kept)
    × (queue bulk (push bulk 9 mixed) ≡ kept ++ (9 ∷ []))
    × (length dropped ≤ 1)
    × (dropped ≢ [] → (bulk ≡ bulk) × (2 ≤ 2))
    × ((d : TrafficClass) → d ≢ bulk → queue d (push bulk 9 mixed) ≡ queue d mixed)
push_split_case = push_split bulk 9 mixed

run-new_bounded_example :
    length (run {T = ℕ} (new 1) (pushes bulk 5 ∷ pushes bulk 6 ∷ pops ∷ [])).bulk_queue ≤ max 1 1
run-new_bounded_example = run-new_bounded 1 (pushes bulk 5 ∷ pushes bulk 6 ∷ pops ∷ [])
