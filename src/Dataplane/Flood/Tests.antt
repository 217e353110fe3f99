-- ===== src/Dataplane/Flood/Tests.antt =====
-- The theorems on flooded packets at concrete arrivals.
use r2n.Common.{ℕ, ◌≡◌, ◌≤◌, refl, false, List, [], ◌∷◌, arith, length}
use r2n.Dataplane.Flood.{Key, contains, new, trim, expire, prune, insert_if_new}
use r2n.Dataplane.Flood.Laws.{insert_all, insert_all-new, queued, DistinctKeys}
use r2n.Dataplane.Flood.Window.{insert_if_new_twice}

abbrev arrivals : List (ℕ × Key)
arrivals = (1_000_000_000, (1, 7)) ∷ (2_000_000_000, (2, 7)) ∷ (29_000_000_000, (1, 8)) ∷ []

few : length arrivals ≡ 3
few = refl

insert_if_new_twice_example :
    (insert_if_new 31_000_000_000
      (1, 7)
      (insert_all (insert_if_new 1_000_000_000 (1, 7) new).1 arrivals)).0
    ≡ false
unfolding insert_if_new prune trim expire new
insert_if_new_twice_example =
    insert_if_new_twice (1, 7) 1_000_000_000 31_000_000_000 new arrivals
      (record { distinct = tt; same = λ k. refl }) refl (omega (arith, few))
      (omega arith, (omega arith, (omega arith, tt))) (omega arith)

insert_all-new_example :
    DistinctKeys (insert_all new arrivals).order
    × ((k : Key)
        → contains k (insert_all new arrivals).keys ≡ queued k (insert_all new arrivals).order)
    × (length (insert_all new arrivals).order ≤ 4096)
insert_all-new_example = insert_all-new arrivals
