-- ===== src/Room/Nets.antt =====
-- The IPv4 networks of the ipnet crate, as far as the rooms use them. Addresses are numbers.
use Prim.Native.String.{String}
use r2n.Common.{ℕ, ◌+◌, ◌-◌, ◌%◌, ◌^◌, ◌≤◌, ◌<◌, ◌≡◌, Bool, ◌&&◌, ◌==◌, Option, some}

pub record Ipv4Nets : Type 1 where
  pub Ipv4Net : Type 0
  pub parse : String → Option Ipv4Net
  pub show : Ipv4Net → String
  -- `Ipv4Net::new`, of an address and a prefix length.
  pub make : ℕ → ℕ → Option Ipv4Net
  pub prefix_len : Ipv4Net → ℕ
  pub network : Ipv4Net → ℕ
  pub broadcast : Ipv4Net → ℕ
  pub net_eq : Ipv4Net → Ipv4Net → Bool
  -- The address as given, which may have bits behind the prefix.
  pub addr : Ipv4Net → ℕ
  pub prefix_max : (n : Ipv4Net) → prefix_len n ≤ 32
  pub network_lem : (n : Ipv4Net) → network n ≡ addr n - addr n % 2 ^ (32 - prefix_len n)
  pub broadcast_lem : (n : Ipv4Net) → broadcast n + 1 ≡ network n + 2 ^ (32 - prefix_len n)
  pub broadcast_max : (n : Ipv4Net) → broadcast n < 2 ^ 32
  pub make_some :
      (a p : ℕ)
      → a < 2 ^ 32
      → p ≤ 32
      → (n : Ipv4Net) × (make a p ≡ some n) × (addr n ≡ a) × (prefix_len n ≡ p)
  pub net_eq_lem :
      (m n : Ipv4Net) → net_eq m n ≡ ((addr m == addr n) && (prefix_len m == prefix_len n))
