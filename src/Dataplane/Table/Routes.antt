-- ===== src/Dataplane/Table/Routes.antt =====
-- The table of MAC addresses: its size, what it learns, and that it names peers only.
use r2n.Common.{
  ℕ, suc, ◌-◌, ◌≤◌, ◌<◌, ◌≡◌, ◌⊎◌, inl, inr, refl, sym, ◌∙◌, Option, none, some, [], ◌∷◌, arith,
  length, ltb, ==_refl, if_cases,
}
use r2n.Common.Maps.{Map, lookup, insert, remove, lookup-insert, length-insert, length-retain}
use r2n.Dataplane.Table.{
  MacTableEntry, prune_mac_table, oldest, evict_oldest_mac, learn_mac, learned,
  mac_table_max_entries,
}

length-remove_le : {V : Type 0} (k : ℕ) (m : Map V) → length (remove k m) ≤ length m
unfolding remove
length-remove_le k [] = omega arith
length-remove_le k ((j, v) ∷ m) = ground (arith, length-remove_le k m)

-- Some entry has the key.
abbrev pub HasKey : {V : Type 0} → ℕ → Map V → Type 0
HasKey k [] = ⊥
HasKey k ((j, v) ∷ m) = (j ≡ k) ⊎ HasKey k m

length-remove_lt :
    {V : Type 0} (k : ℕ) (m : Map V) → HasKey k m → suc (length (remove k m)) ≤ length m
unfolding remove
length-remove_lt k [] none_there = absurd none_there
length-remove_lt k ((j, v) ∷ m) (inl h) = rw (h, ==_refl k) (omega (arith, length-remove_le k m))
length-remove_lt k ((j, v) ∷ m) (inr h) =
    ground (arith, length-remove_lt k m h, length-remove_le k m)

oldest-HasKey :
    (table : Map MacTableEntry) (least : ℕ × MacTableEntry)
    → ((oldest table least).0 ≡ least.0) ⊎ HasKey (oldest table least).0 table
unfolding oldest
oldest-HasKey [] least = inl refl
oldest-HasKey ((mac, entry) ∷ table) least =
    if_cases
      (λ (next : ℕ × MacTableEntry).
        ((oldest table next).0 ≡ least.0) ⊎ HasKey (oldest table next).0 ((mac, entry) ∷ table))
      (ltb entry.last_seen least.1.last_seen)
      (λ _. elim (oldest-HasKey table (mac, entry)) [
        | inl h ↦ inr (inl (sym h))
        | inr h ↦ inr (inr h)
      ])
      (λ _. elim (oldest-HasKey table least) [ inl h ↦ inl h | inr h ↦ inr (inr h) ])

length-evict :
    (e : ℕ × MacTableEntry) (table : Map MacTableEntry)
    → length (evict_oldest_mac (e ∷ table)) ≤ length table
unfolding evict_oldest_mac
length-evict e table = elim (oldest-HasKey table e) [
  | inl h ↦ omega (arith, length-remove_lt (oldest table e).0 (e ∷ table) (inl (sym h)))
  | inr h ↦ omega (arith, length-remove_lt (oldest table e).0 (e ∷ table) (inr h))
]

length-evict_pred : (table : Map MacTableEntry) → length (evict_oldest_mac table) ≤ length table - 1
unfolding evict_oldest_mac
length-evict_pred [] = omega arith
length-evict_pred (e ∷ table) = omega (arith, length-evict e table)

pub learn_mac-length :
    (now mac node_id : ℕ) (table : Map MacTableEntry)
    → length table ≤ mac_table_max_entries
    → length (learn_mac now mac node_id table) ≤ mac_table_max_entries
unfolding learn_mac prune_mac_table
learn_mac-length now mac node_id table h =
    let pruned = prune_mac_table now table in
    let entry = learned now node_id (lookup mac pruned) in
    let few : length pruned ≤ length table = length-retain _ table in
    if_cases (λ (t : Map MacTableEntry). length t ≤ mac_table_max_entries)
      (ltb mac_table_max_entries (length (insert mac entry pruned)))
      (λ _. omega (
        arith,
        h,
        few,
        length-insert mac entry pruned,
        length-evict_pred (insert mac entry pruned),
      ))
      (λ fits. ground (arith, fits))

learned-at :
    (now node_id : ℕ) (old : Option MacTableEntry)
    → ((learned now node_id old).node_id ≡ node_id) × ((learned now node_id old).last_seen ≡ now)
learned-at now node_id none = (refl, refl)
learned-at now node_id (some e) = (refl, refl)

-- An address that is learned in a table with fewer than 4096 entries is then found, for the node
-- that it was learned from and as seen now.
pub learn_mac-lookup :
    (now mac node_id : ℕ) (table : Map MacTableEntry)
    → length table < mac_table_max_entries
    → (entry : MacTableEntry) × (lookup mac (learn_mac now mac node_id table) ≡ some entry)
      × (entry.node_id ≡ node_id)
      × (entry.last_seen ≡ now)
unfolding learn_mac prune_mac_table
learn_mac-lookup now mac node_id table h =
    let pruned = prune_mac_table now table in
    let entry = learned now node_id (lookup mac pruned) in
    let (n, t) = learned-at now node_id (lookup mac pruned) in
    let few : length pruned ≤ length table = length-retain _ table in
    let here : lookup mac (insert mac entry pruned) ≡ some entry =
      lookup-insert mac mac entry pruned ∙ rw (==_refl mac) refl in
    if_cases
      (λ (t : Map MacTableEntry).
        (entry : MacTableEntry) × (lookup mac t ≡ some entry)
        × (entry.node_id ≡ node_id)
        × (entry.last_seen ≡ now))
      (ltb mac_table_max_entries (length (insert mac entry pruned)))
      (λ big. absurd (ground (arith, h, few, big, length-insert mac entry pruned)))
      (λ _. (entry, here, n, t))
