-- ===== src/Dataplane/Flood/Window.antt =====
-- How long a seen packet is remembered.
use r2n.Common.{
  ℕ, suc, ◌+◌, ◌-◌, ◌≤◌, ◌<◌, ◌≡◌, refl, ap, ◌∙◌, Bool, true, false, List, [], ◌∷◌, ◌++◌, arith,
  All, length, length-append, ltb, leb, if_cases, Bool-cases, inl, inr, ltb→lt, leb→lt,
}
use mathlib.Core.List.{append_assoc}
use native.Mathlib.Nat.{add-zero}
use r2n.Dataplane.Flood.{
  Key, key_eq, Seen, SeenFloodPackets, contains, set_remove, new, trim, expire, prune, add,
  insert_if_new, seen_flood_capacity, seen_flood_window,
}
use r2n.Dataplane.Flood.Laws.{
  Agrees, prune-Agrees, queued, queued-append, insert_all, insert_all-Agrees, insert_if_new-Agrees,
}

-- `k`, seen at `at`, is queued with at most `n` entries behind it.
abbrev Kept : Key → ℕ → ℕ → List Seen → Type 0
Kept k at n es =
    (front back : List Seen) × (es ≡ front ++ (record { key = k; seen_at = at } ∷ back))
    × (length back ≤ n)

trim-Kept :
    (k : Key) (at n : ℕ) (es : List Seen) (keys : List Key)
    → n < seen_flood_capacity
    → Kept k at n es
    → Kept k at n (trim es keys).order
unfolding trim
trim-Kept k at n [] keys h v = v
trim-Kept k at n (e ∷ rest) keys h ([], back, eq, len) =
    if_cases (λ (s : SeenFloodPackets). Kept k at n s.order)
      (ltb seen_flood_capacity (suc (length rest)))
      (λ big. absurd (omega (arith, ltb→lt _ _ big, ap length eq))) (λ _. ([], back, eq, len))
trim-Kept k at n (e ∷ rest) keys h (f ∷ front, back, eq, len) =
    if_cases (λ (s : SeenFloodPackets). Kept k at n s.order)
      (ltb seen_flood_capacity (suc (length rest)))
      (λ _. trim-Kept k at n rest (set_remove e.key keys) h (front, back, cc, len))
      (λ _. (f ∷ front, back, eq, len))

expire-Kept :
    (k : Key) (at n now : ℕ) (es : List Seen) (keys : List Key)
    → now ≤ at + seen_flood_window
    → Kept k at n es
    → Kept k at n (expire now es keys).order
unfolding expire
expire-Kept k at n now [] keys h v = v
expire-Kept k at n now (e ∷ rest) keys h ([], back, eq, len) =
    let same : e ≡ record { key = k; seen_at = at } = cc in
    let when : e.seen_at ≡ at = ap (λ (x : Seen). x.seen_at) same in
    if_cases (λ (s : SeenFloodPackets). Kept k at n s.order)
      (leb (now - e.seen_at) seen_flood_window) (λ _. ([], back, eq, len))
      (λ late. absurd (omega (arith, leb→lt _ _ late, when)))
expire-Kept k at n now (e ∷ rest) keys h (f ∷ front, back, eq, len) =
    if_cases (λ (s : SeenFloodPackets). Kept k at n s.order)
      (leb (now - e.seen_at) seen_flood_window) (λ _. (f ∷ front, back, eq, len))
      (λ _. expire-Kept k at n now rest (set_remove e.key keys) h (front, back, cc, len))

prune-Kept :
    (k : Key) (at n now : ℕ) (s : SeenFloodPackets)
    → n < seen_flood_capacity
    → now ≤ at + seen_flood_window
    → Kept k at n s.order
    → Kept k at n (prune now s).order
unfolding prune
prune-Kept k at n now s small soon v =
    let t = trim s.order s.keys in
    expire-Kept k at n now t.order t.keys soon (trim-Kept k at n s.order s.keys small v)

add-Kept :
    (k j : Key) (at n now : ℕ) (s : SeenFloodPackets)
    → Kept k at n s.order
    → Kept k at (suc n) (add now j s).order
add-Kept k j at n now s (front, back, eq, len) = (
  front,
  back ++ (record { key = j; seen_at = now } ∷ []),
  ap (λ (es : List Seen). es ++ (record { key = j; seen_at = now } ∷ [])) eq
      ∙ append_assoc front (record { key = k; seen_at = at } ∷ back)
          (record { key = j; seen_at = now } ∷ []),
  omega (arith, length-append back (record { key = j; seen_at = now } ∷ [])),
)

Kept-suc : (k : Key) (at n : ℕ) (es : List Seen) → Kept k at n es → Kept k at (suc n) es
Kept-suc k at n es (front, back, eq, len) = (front, back, eq, omega arith)

insert-Kept :
    (k j : Key) (at n now : ℕ) (s : SeenFloodPackets)
    → suc n < seen_flood_capacity
    → now ≤ at + seen_flood_window
    → Kept k at n s.order
    → Kept k at (suc n) (insert_if_new now j s).1.order
unfolding insert_if_new
insert-Kept k j at n now s small soon v =
    let kept = prune-Kept k at n now s (omega arith) soon v in
    if_cases (λ (r : Bool × SeenFloodPackets). Kept k at (suc n) r.1.order)
      (contains j (prune now s).keys) (λ _. Kept-suc k at n (prune now s).order kept)
      (λ _. prune-Kept k at (suc n) now _ small soon (add-Kept k j at n now (prune now s) kept))

key_eq_refl : (k : Key) → key_eq k k ≡ true
key_eq_refl k = ground arith

Kept-queued : (k : Key) (at n : ℕ) (es : List Seen) → Kept k at n es → queued k es ≡ true
Kept-queued k at n es (front, back, eq, len) =
    ap (queued k) eq
    ∙ queued-append k front (record { key = k; seen_at = at } ∷ back)
    ∙ (elim (Bool-cases (queued k front)) [ inl h ↦ rw h | inr h ↦ rw (h, key_eq_refl k) ])

Kept-refused :
    (k : Key) (at n now : ℕ) (s : SeenFloodPackets)
    → Agrees s
    → n < seen_flood_capacity
    → now ≤ at + seen_flood_window
    → Kept k at n s.order
    → (insert_if_new now k s).0 ≡ false
unfolding insert_if_new
Kept-refused k at n now s v small soon kept =
    let pruned = prune-Kept k at n now s small soon kept in
    let known = (prune-Agrees now s v).same k ∙ Kept-queued k at n (prune now s).order pruned in
    rw known

-- An arrival not later than the window allows.
abbrev pub Within : ℕ → List (ℕ × Key) → Type 0
Within at = All (λ arrival. arrival.0 ≤ at + seen_flood_window)

insert_all-Kept :
    (k : Key) (at n : ℕ) (s : SeenFloodPackets) (arrivals : List (ℕ × Key))
    → n + length arrivals < seen_flood_capacity
    → Within at arrivals
    → Kept k at n s.order
    → Kept k at (n + length arrivals) (insert_all s arrivals).order
unfolding insert_all
insert_all-Kept k at n s [] small w v = rw add-zero v
insert_all-Kept k at n s ((now, j) ∷ arrivals) small w v =
    let e : n + suc (length arrivals) ≡ suc n + length arrivals = omega arith in
    rw e (
      insert_all-Kept k at (suc n) (insert_if_new now j s).1 arrivals (omega arith) w.1
        (insert-Kept k j at n now s (omega arith) w.0 v))

added-Kept :
    (k : Key) (at : ℕ) (s : SeenFloodPackets)
    → (insert_if_new at k s).0 ≡ true
    → Kept k at 0 (insert_if_new at k s).1.order
unfolding insert_if_new
added-Kept k at s h = elim (Bool-cases (contains k (prune at s).keys)) [
  | inl old ↦ absurd (not_new old)
  | inr new ↦ rw new (
      prune-Kept k at 0 at _ (omega arith) (omega arith)
        ((prune at s).order, [], refl, omega arith))
]
  where
    not_new : contains k (prune at s).keys ≡ true → ⊥
    not_new old = cc (rw old at h)

-- A flooded packet that was taken as new at a time `at` is refused if it comes back within thirty
-- seconds of `at`, as long as fewer than 4096 arrivals, each within that time too, lie between;
-- and this from any state in which the queue and the set agree.
pub insert_if_new_twice :
    (k : Key) (at now : ℕ) (s : SeenFloodPackets) (arrivals : List (ℕ × Key))
    → Agrees s
    → (insert_if_new at k s).0 ≡ true
    → length arrivals < seen_flood_capacity
    → Within at arrivals
    → now ≤ at + seen_flood_window
    → (insert_if_new now k (insert_all (insert_if_new at k s).1 arrivals)).0 ≡ false
insert_if_new_twice k at now s arrivals v fresh few w soon =
    let first = (insert_if_new at k s).1 in
    Kept-refused k at (0 + length arrivals) now (insert_all first arrivals)
      (insert_all-Agrees first arrivals (insert_if_new-Agrees at k s v)) (omega arith) soon
      (insert_all-Kept k at 0 first arrivals (omega arith) w (added-Kept k at s fresh))
