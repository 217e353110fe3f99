-- ===== src/Dataplane/Path/Tests.antt =====
-- Floats as natural numbers, and the theorems on paths at concrete events.
use r2n.Common.{ℕ, ◌+◌, ◌-◌, ◌*◌, ◌/◌, ◌≡◌, ◌⊎◌, refl, true, some, List, [], ◌∷◌, arith, ltb}
use r2n.Dataplane.Path.{
  Floats, PathInfo, new_path, new, active_addr, is_active_relay, reevaluate, best, score, get,
}
use r2n.Dataplane.Path.Choice.{NoneBelow, recent, reevaluate-best}
use r2n.Dataplane.Path.Events.{adds, succeeds, fails, Event, run, run-new, DistinctAddrs}

-- Thousandths, without a sign.
abbrev pub thousandths : Floats
thousandths = record {
  F = ℕ;
  add = λ a b. a + b;
  sub = λ a b. a - b;
  mul = λ a b. a * b / 1000;
  abs = λ a. a;
  lt = λ a b. ltb a b;
  max_value = 1_000_000_000_000;
  literal = λ n d. n * 1000 / d;
  lt_irrefl = λ a. ground arith;
  lt_trans = λ a b c h k. ground (arith, h, k);
}

abbrev events : List (Event thousandths)
events = adds 0 20 true ∷ adds 0 30 true ∷ succeeds 1_000 30 10_000 ∷ fails 2_000 20 ∷ []

run-new_example :
    DistinctAddrs thousandths (run thousandths (new thousandths 0 10) events).paths
    × ((p : PathInfo thousandths) × (active_addr thousandths
            (run thousandths (new thousandths 0 10) events)
          ≡ some p.addr)
        × (is_active_relay thousandths (run thousandths (new thousandths 0 10) events)
            ≡ some p.is_relay))
run-new_example = run-new thousandths 0 10 events

abbrev relay : PathInfo thousandths
relay = new_path thousandths 0 10 true

abbrev direct : PathInfo thousandths
direct = record (new_path thousandths 0 20 true) { rtt_ewma = 5_000 }

reevaluate-best_example :
    let chosen =
      (reevaluate thousandths 1_000
        (record { paths = relay ∷ direct ∷ []; active_index = 0 })).active_index in
    ((chosen ≡ 0) × NoneBelow thousandths 1_000 1_000_000_000_000 (relay ∷ direct ∷ []))
    ⊎ ((q : PathInfo thousandths) × (get thousandths (relay ∷ direct ∷ []) chosen ≡ some q)
        × (recent thousandths 1_000 q ≡ true)
        × NoneBelow thousandths 1_000 (score thousandths q) (relay ∷ direct ∷ []))
reevaluate-best_example = reevaluate-best thousandths 1_000 relay (direct ∷ []) 0

-- The direct path is chosen.
chosen_direct :
    (reevaluate thousandths 1_000
      (record { paths = relay ∷ direct ∷ []; active_index = 0 })).active_index
    ≡ 1
unfolding reevaluate best score
chosen_direct = refl
