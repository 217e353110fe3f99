-- ===== src/Dataplane/Flood/Laws.antt =====
-- The set and the queue of seen packets agree, and stay bounded.
use r2n.Common.{
  ℕ, suc, ◌-◌, ◌≤◌, ◌≡◌, refl, sym, ◌∙◌, Bool, true, false, ◌||◌, List, [], ◌∷◌, ◌++◌, arith,
  length, ltb, leb, if◌then◌else◌, if_cases, ltb→le,
}
use r2n.Dataplane.Flood.{
  Key, key_eq, Seen, SeenFloodPackets, contains, set_remove, set_insert, new, trim, expire, prune,
  add, insert_if_new, seen_flood_capacity, seen_flood_window,
}

-- Does the queue hold the key?
abbrev pub queued : Key → List Seen → Bool
queued k [] = false
queued k (e ∷ es) = key_eq e.key k || queued k es

abbrev pub DistinctKeys : List Seen → Type 0
DistinctKeys [] = Unit {0}
DistinctKeys (e ∷ es) = (queued e.key es ≡ false) × DistinctKeys es

-- The queue has no key twice, and the set holds its keys and no others.
pub record Agrees (s : SeenFloodPackets) : Type 0 where
  pub distinct : DistinctKeys s.order
  pub same : (k : Key) → contains k s.keys ≡ queued k s.order

contains-set_remove :
    (j k : Key) (ks : List Key)
    → contains k (set_remove j ks) ≡ (if key_eq j k then false else contains k ks)
contains-set_remove j k [] = ground arith
contains-set_remove j k (i ∷ ks) = ground (arith, contains-set_remove j k ks)

contains_same : (j k : Key) (ks : List Key) → key_eq j k ≡ true → contains j ks ≡ contains k ks
contains_same j k [] h = refl
contains_same j k (i ∷ ks) h = ground (arith, contains_same j k ks)

contains-set_insert :
    (j k : Key) (ks : List Key) → contains k (set_insert j ks) ≡ (key_eq j k || contains k ks)
contains-set_insert j k ks = ground (arith, contains_same j k ks)

queued_same : (j k : Key) (es : List Seen) → key_eq j k ≡ true → queued j es ≡ queued k es
queued_same j k [] h = refl
queued_same j k (e ∷ es) h = ground (arith, queued_same j k es)

pop-Agrees :
    (e : Seen) (rest : List Seen) (keys : List Key)
    → Agrees (record { order = e ∷ rest; keys = keys })
    → Agrees (record { order = rest; keys = set_remove e.key keys })
pop-Agrees e rest keys v = record {
  distinct = v.distinct.1;
  same = λ k.
      ground
        (arith, v.same k, contains-set_remove e.key k keys, v.distinct.0, queued_same e.key k rest);
}

trim-Agrees :
    (es : List Seen) (keys : List Key)
    → Agrees (record { order = es; keys = keys })
    → Agrees (trim es keys)
unfolding trim
trim-Agrees [] keys v = v
trim-Agrees (e ∷ rest) keys v =
    if_cases Agrees (ltb seen_flood_capacity (suc (length rest)))
      (λ _. trim-Agrees rest (set_remove e.key keys) (pop-Agrees e rest keys v)) (λ _. v)

expire-Agrees :
    (now : ℕ) (es : List Seen) (keys : List Key)
    → Agrees (record { order = es; keys = keys })
    → Agrees (expire now es keys)
unfolding expire
expire-Agrees now [] keys v = v
expire-Agrees now (e ∷ rest) keys v =
    if_cases Agrees (leb (now - e.seen_at) seen_flood_window) (λ _. v)
      (λ _. expire-Agrees now rest (set_remove e.key keys) (pop-Agrees e rest keys v))

pub prune-Agrees : (now : ℕ) (s : SeenFloodPackets) → Agrees s → Agrees (prune now s)
unfolding prune
prune-Agrees now s v =
    let t = trim s.order s.keys in expire-Agrees now t.order t.keys (trim-Agrees s.order s.keys v)

pub queued-append :
    (k : Key) (es fs : List Seen) → queued k (es ++ fs) ≡ (queued k es || queued k fs)
queued-append k [] fs = refl
queued-append k (e ∷ es) fs = ground (arith, queued-append k es fs)

DistinctKeys-snoc :
    (es : List Seen) (e : Seen)
    → DistinctKeys es
    → queued e.key es ≡ false
    → DistinctKeys (es ++ (e ∷ []))
DistinctKeys-snoc [] e d h = (refl, tt)
DistinctKeys-snoc (f ∷ es) e d h =
    (ground (arith, queued-append f.key es (e ∷ [])), DistinctKeys-snoc es e d.1 (ground arith))

add-Agrees :
    (now : ℕ) (k : Key) (s : SeenFloodPackets)
    → contains k s.keys ≡ false
    → Agrees s
    → Agrees (add now k s)
add-Agrees now k s fresh v = record {
  distinct =
      DistinctKeys-snoc s.order (record { key = k; seen_at = now }) v.distinct
        (sym (v.same k) ∙ fresh);
  same = λ j. ground (
    arith,
    v.same j,
    contains-set_insert k j s.keys,
    queued-append j s.order (record { key = k; seen_at = now } ∷ []),
  );
}

pub insert_if_new-Agrees :
    (now : ℕ) (k : Key) (s : SeenFloodPackets) → Agrees s → Agrees (insert_if_new now k s).1
unfolding insert_if_new
insert_if_new-Agrees now k s v =
    if_cases (λ (r : Bool × SeenFloodPackets). Agrees r.1) (contains k (prune now s).keys)
      (λ _. prune-Agrees now s v)
      (λ fresh. prune-Agrees now _ (add-Agrees now k _ fresh (prune-Agrees now s v)))

trim-length :
    (es : List Seen) (keys : List Key)
    → (length (trim es keys).order ≤ seen_flood_capacity)
      × (length (trim es keys).order ≤ length es)
unfolding trim
trim-length [] keys = omega arith
trim-length (e ∷ rest) keys =
    let ih = trim-length rest (set_remove e.key keys) in
    if_cases
      (λ (s : SeenFloodPackets).
        (length s.order ≤ seen_flood_capacity) × (length s.order ≤ suc (length rest)))
      (ltb seen_flood_capacity (suc (length rest))) (λ _. (ih.0, omega arith))
      (λ h. (ltb→le _ _ h, omega arith))

expire-length :
    (now : ℕ) (es : List Seen) (keys : List Key) → length (expire now es keys).order ≤ length es
unfolding expire
expire-length now [] keys = omega arith
expire-length now (e ∷ rest) keys =
    let ih = expire-length now rest (set_remove e.key keys) in
    if_cases (λ (s : SeenFloodPackets). length s.order ≤ suc (length rest))
      (leb (now - e.seen_at) seen_flood_window) (λ _. omega arith) (λ _. omega arith)

pub prune-length :
    (now : ℕ) (s : SeenFloodPackets) → length (prune now s).order ≤ seen_flood_capacity
unfolding prune
prune-length now s =
    let t = trim s.order s.keys in
    omega (arith, trim-length s.order s.keys, expire-length now t.order t.keys)

pub prune-length-le : (now : ℕ) (s : SeenFloodPackets) → length (prune now s).order ≤ length s.order
unfolding prune
prune-length-le now s =
    let t = trim s.order s.keys in
    omega (arith, trim-length s.order s.keys, expire-length now t.order t.keys)

-- Arrivals in turn, each with its time.
unfoldable pub insert_all : SeenFloodPackets → List (ℕ × Key) → SeenFloodPackets
insert_all s [] = s
insert_all s ((now, k) ∷ arrivals) = insert_all (insert_if_new now k s).1 arrivals

insert_if_new-length :
    (now : ℕ) (k : Key) (s : SeenFloodPackets)
    → length (insert_if_new now k s).1.order ≤ seen_flood_capacity
unfolding insert_if_new
insert_if_new-length now k s =
    if_cases (λ (r : Bool × SeenFloodPackets). length r.1.order ≤ seen_flood_capacity)
      (contains k (prune now s).keys) (λ _. prune-length now s) (λ _. prune-length now _)

pub insert_all-Agrees :
    (s : SeenFloodPackets) (arrivals : List (ℕ × Key)) → Agrees s → Agrees (insert_all s arrivals)
unfolding insert_all
insert_all-Agrees s [] v = v
insert_all-Agrees s ((now, k) ∷ arrivals) v =
    insert_all-Agrees (insert_if_new now k s).1 arrivals (insert_if_new-Agrees now k s v)

insert_all-length :
    (s : SeenFloodPackets) (arrivals : List (ℕ × Key))
    → length s.order ≤ seen_flood_capacity
    → length (insert_all s arrivals).order ≤ seen_flood_capacity
unfolding insert_all
insert_all-length s [] h = h
insert_all-length s ((now, k) ∷ arrivals) h =
    insert_all-length (insert_if_new now k s).1 arrivals (insert_if_new-length now k s)

-- From the empty structure, after any arrivals: the queue lists no key twice, the set holds exactly
-- the keys that are queued, and the queue has at most 4096 entries.
pub insert_all-new :
    (arrivals : List (ℕ × Key))
    → DistinctKeys (insert_all new arrivals).order
      × ((k : Key)
          → contains k (insert_all new arrivals).keys ≡ queued k (insert_all new arrivals).order)
      × (length (insert_all new arrivals).order ≤ seen_flood_capacity)
unfolding new
insert_all-new arrivals =
    let v = insert_all-Agrees new arrivals (record { distinct = tt; same = λ k. refl }) in
    (v.distinct, v.same, insert_all-length new arrivals (omega arith))
