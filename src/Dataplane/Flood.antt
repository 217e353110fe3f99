-- ===== src/Dataplane/Flood.antt =====
-- crates/r2n-dataplane/src/lib.rs, SeenFloodPackets: which flooded packets were seen of late.
-- Instants are nanoseconds; `duration_since` stops at 0, as the standard library's does.
pub mod Laws
pub mod Window
mod Tests
use r2n.Common.{
  ℕ, suc, ◌+◌, ◌-◌, ◌*◌, ◌≤◌, ◌<◌, ◌≡◌, Bool, true, false, ◌&&◌, ◌||◌, List, [], ◌∷◌, ◌++◌, length,
  ltb, leb, ◌==◌, if◌then◌else◌,
}

abbrev pub seen_flood_window : ℕ
seen_flood_window = 30_000_000_000

abbrev pub seen_flood_capacity : ℕ
seen_flood_capacity = 4096

-- An origin and a packet id.
abbrev pub Key : Type 0
Key = ℕ × ℕ

abbrev pub key_eq : Key → Key → Bool
key_eq j k = (j.0 == k.0) && (j.1 == k.1)

pub record Seen : Type 0 where
  pub key : Key
  pub seen_at : ℕ

-- The hash set of keys; `order` has its front first.
pub record SeenFloodPackets : Type 0 where
  pub order : List Seen
  pub keys : List Key

abbrev pub contains : Key → List Key → Bool
contains k [] = false
contains k (j ∷ js) = key_eq j k || contains k js

abbrev pub set_remove : Key → List Key → List Key
set_remove k [] = []
set_remove k (j ∷ js) = let rest = set_remove k js in if key_eq j k then rest else j ∷ rest

abbrev pub set_insert : Key → List Key → List Key
set_insert k js = if contains k js then js else k ∷ js

unfoldable pub new : SeenFloodPackets
new = record { order = []; keys = [] }

-- The first loop of `prune`.
unfoldable pub trim : List Seen → List Key → SeenFloodPackets
trim [] keys = record { order = []; keys = keys }
trim (e ∷ rest) keys =
    let popped = trim rest (set_remove e.key keys) in
    if ltb seen_flood_capacity (suc (length rest))
    then popped
    else record { order = e ∷ rest; keys = keys }

-- The second loop of `prune`.
unfoldable pub expire : ℕ → List Seen → List Key → SeenFloodPackets
expire now [] keys = record { order = []; keys = keys }
expire now (e ∷ rest) keys =
    let popped = expire now rest (set_remove e.key keys) in
    if leb (now - e.seen_at) seen_flood_window
    then record { order = e ∷ rest; keys = keys }
    else popped

unfoldable pub prune : ℕ → SeenFloodPackets → SeenFloodPackets
prune now s = let t = trim s.order s.keys in expire now t.order t.keys

abbrev pub add : ℕ → Key → SeenFloodPackets → SeenFloodPackets
add now k s = record {
  order = s.order ++ (record { key = k; seen_at = now } ∷ []);
  keys = set_insert k s.keys;
}

unfoldable pub insert_if_new : ℕ → Key → SeenFloodPackets → Bool × SeenFloodPackets
insert_if_new now k s =
    let pruned = prune now s in
    if contains k pruned.keys then (false, pruned) else (true, prune now (add now k pruned))
