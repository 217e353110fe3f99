-- ===== src/Room/Blocks.antt =====
-- The blocks of a pool: networks of the room size, aligned, inside the pool.
use r2n.Common.{
  ℕ, zero, suc, ◌+◌, ◌-◌, ◌*◌, ◌%◌, ◌^◌, ◌≤◌, ◌<◌, ◌≡◌, ◌≢◌, ◌⊎◌, sym, ap, ◌∙◌, false, ◌&&◌, some,
  List, [], ◌∷◌, ◌++◌, arith, All, ◌==◌, if_cases, subst,
}
use native.Mathlib.Nat.{mod-eq-zero_of_dvd, dvd-add, dvd_trans, dvd-mul_left, dvd_of_mod-eq-zero}
use r2n.Common.Powers.{pow-add, two_pow_pos}
use r2n.Room.Nets.{Ipv4Nets}
use r2n.Room.Subnets.{range_from, preferred_indices, candidate_indices}

range_from-lt : (first n bound : ℕ) → first + n ≤ bound → All (λ i. i < bound) (range_from first n)
unfolding range_from
range_from-lt first zero bound h = tt
range_from-lt first (suc n) bound h = (omega arith, range_from-lt (suc first) n bound (omega arith))

All-append_lt :
    (bound : ℕ) (xs ys : List ℕ)
    → All (λ i. i < bound) xs
    → All (λ i. i < bound) ys
    → All (λ i. i < bound) (xs ++ ys)
All-append_lt bound [] ys h k = k
All-append_lt bound (x ∷ xs) ys h k = (h.0, All-append_lt bound xs ys h.1 k)

preferred_indices-lt : All (λ i. i < 256) preferred_indices
preferred_indices-lt =
    All-append_lt 256 (range_from 200 56) _ (range_from-lt 200 56 256 (omega arith)) (
      All-append_lt 256 (range_from 4 27) _ (range_from-lt 4 27 256 (omega arith)) (
        All-append_lt 256 (range_from 32 168) (0 ∷ 1 ∷ 2 ∷ 3 ∷ 31 ∷ [])
          (range_from-lt 32 168 256 (omega arith)) (omega arith)))

-- Block `i` of `count` blocks of size `S` from an aligned base.
block_aligned :
    (base i count S : ℕ) → 0 < S → 0 < count → base % (count * S) ≡ 0 → (base + i * S) % S ≡ 0
block_aligned base i count S s c e = mod-eq-zero_of_dvd S (
    dvd-add S (dvd_trans S (dvd-mul_left S count) (dvd_of_mod-eq-zero (count * S) e))
      (dvd-mul_left S i))

sub-mod_aligned : (a S : ℕ) → 0 < S → (a - a % S) % S ≡ 0
sub-mod_aligned a S pos = grind arith

block_fits : (base i count S : ℕ) → i < count → base + i * S + S ≤ base + count * S
block_fits base i count S h = grind arith

blocks_apart : (a b S : ℕ) → 0 < S → a % S ≡ 0 → b % S ≡ 0 → a ≢ b → (a + S ≤ b) ⊎ (b + S ≤ a)
blocks_apart a b S pos ea eb ne = grind arith

module _ (nets : Ipv4Nets) where
  open nets use {Ipv4Net, network, broadcast, prefix_len, net_eq, addr}

  pub candidate_indices-lt :
      (pool : Ipv4Net) (room_prefix_len room_count : ℕ)
      → All (λ i. i < room_count) (candidate_indices nets pool room_prefix_len room_count)
  unfolding candidate_indices
  candidate_indices-lt pool room_prefix_len room_count =
      if_cases (All (λ i. i < room_count))
        ((network pool == 3232235520)
          && ((prefix_len pool == 16) && ((room_prefix_len == 24) && (room_count == 256))))
        (λ h.
          let e : room_count ≡ 256 = ground arith in
          subst (λ n. All (λ i. i < n) preferred_indices) (sym e) preferred_indices-lt)
        (λ _. range_from-lt 0 room_count room_count (omega arith))

  -- A network of the room size at a multiple of that size, inside the pool.
  pub record IsBlock (pool : Ipv4Net) (len : ℕ) (net : Ipv4Net) : Type 0 where
    pub size : prefix_len net ≡ len
    pub aligned : addr net % 2 ^ (32 - len) ≡ 0
    pub above : network pool ≤ network net
    pub below : broadcast net ≤ broadcast pool

  pub candidate-IsBlock :
      (pool : Ipv4Net) (len i : ℕ)
      → prefix_len pool ≤ len
      → len ≤ 30
      → i < 2 ^ (len - prefix_len pool)
      → (net : Ipv4Net) × (nets.make (network pool + i * 2 ^ (32 - len)) len ≡ some net)
        × IsBlock pool len net
  candidate-IsBlock pool len i p small h =
      let S = 2 ^ (32 - len) in
      let count = 2 ^ (len - prefix_len pool) in
      let start = network pool + i * S in
      let split : count * S ≡ 2 ^ (32 - prefix_len pool) =
        sym (pow-add (len - prefix_len pool) (32 - len)) ∙ ap (λ (t : ℕ). 2 ^ t) (omega arith) in
      let base : network pool % (count * S) ≡ 0 =
        rw (split, nets.network_lem pool) (sub-mod_aligned (addr pool) _ (two_pow_pos _)) in
      let even = block_aligned (network pool) i count S (two_pow_pos _) (two_pow_pos _) base in
      let room : start + S ≤ broadcast pool + 1 =
        omega (arith, block_fits (network pool) i count S h, split, nets.broadcast_lem pool) in
      let (net, made, at, len_eq) =
        nets.make_some start len
          (omega (arith, room, two_pow_pos (32 - len), nets.broadcast_max pool)) (omega arith) in
      let net_at : network net ≡ addr net - addr net % S =
        subst (λ (k : ℕ). network net ≡ addr net - addr net % 2 ^ (32 - k)) len_eq
          (nets.network_lem net) in
      let net_end : broadcast net + 1 ≡ network net + S =
        subst (λ (k : ℕ). broadcast net + 1 ≡ network net + 2 ^ (32 - k)) len_eq
          (nets.broadcast_lem net) in
      let fine : addr net % S ≡ 0 = rw at even in
      let exact : network net ≡ start = omega (arith, net_at, fine, at) in
      (
        net,
        made,
        record {
          size = len_eq;
          aligned = fine;
          above = omega (arith, exact);
          below = omega (arith, exact, net_end, room);
        },
      )

  pub block_span :
      (pool net : Ipv4Net) (len : ℕ)
      → IsBlock pool len net
      → (network net ≡ addr net) × (broadcast net + 1 ≡ addr net + 2 ^ (32 - len))
  block_span pool net len v =
      let net_at : network net ≡ addr net - addr net % 2 ^ (32 - len) =
        subst (λ (k : ℕ). network net ≡ addr net - addr net % 2 ^ (32 - k)) v.size
          (nets.network_lem net) in
      let net_end : broadcast net + 1 ≡ network net + 2 ^ (32 - len) =
        subst (λ (k : ℕ). broadcast net + 1 ≡ network net + 2 ^ (32 - k)) v.size
          (nets.broadcast_lem net) in
      (omega (arith, net_at, v.aligned), omega (arith, net_at, v.aligned, net_end))

  -- Blocks of one size whose addresses differ do not meet.
  pub IsBlock-apart :
      (pool a b : Ipv4Net) (len : ℕ)
      → IsBlock pool len a
      → IsBlock pool len b
      → net_eq a b ≡ false
      → (broadcast a < network b) ⊎ (broadcast b < network a)
  IsBlock-apart pool a b len u v ne =
      let other : addr a ≢ addr b = ground (arith, nets.net_eq_lem a b, u.size, v.size) in
      let (at_a, end_a) = block_span pool a len u in
      let (at_b, end_b) = block_span pool b len v in
      let apart =
        blocks_apart (addr a) (addr b) (2 ^ (32 - len)) (two_pow_pos _) u.aligned v.aligned other in
      omega (arith, apart, at_a, end_a, at_b, end_b)
