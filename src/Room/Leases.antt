-- ===== src/Room/Leases.antt =====
-- The search for a free host address.
use r2n.Common.{ℕ, zero, suc, ◌+◌, ◌^◌, ◌≤◌, ◌<◌, ◌≡◌, Bool, true, false, none, some, arith}
use r2n.Room.{find_host}

-- A host that is found lies between the network's own address and the broadcast address, and was
-- not in use.
pub find_host-some :
    (fuel network broadcast : ℕ) (used : ℕ → Bool) (host ip : ℕ)
    → broadcast < 2 ^ 32
    → 0 < host
    → find_host fuel network broadcast used host ≡ some ip
    → (network < ip) × (ip < broadcast) × (used ip ≡ false)
unfolding find_host
find_host-some zero network broadcast used host ip b h e = cc
find_host-some (suc fuel) network broadcast used host ip b h e =
    ground (arith, find_host-some fuel network broadcast used (suc host) ip)

-- With as much fuel as there are addresses, nothing is found only where every address from the
-- first host tried to the last below the broadcast address is in use.
pub find_host-none :
    (fuel network broadcast : ℕ) (used : ℕ → Bool) (host ip : ℕ)
    → broadcast < 2 ^ 32
    → broadcast ≤ network + host + fuel
    → find_host fuel network broadcast used host ≡ none
    → network + host ≤ ip
    → ip < broadcast
    → used ip ≡ true
unfolding find_host
find_host-none zero network broadcast used host ip b enough e lo hi = absurd (omega arith)
find_host-none (suc fuel) network broadcast used host ip b enough e lo hi =
    ground (arith, find_host-none fuel network broadcast used (suc host) ip)
