-- ===== src/Nat/Predicting.antt =====
-- Which addresses are predicted of a NAT.
use r2n.Common.{
  ℕ, zero, suc, ◌+◌, ◌-◌, ◌*◌, ◌≤◌, ◌<◌, ◌≡◌, ◌≢◌, ◌⊎◌, inl, inr, refl, sym, ◌∙◌, Bool, true, false,
  not, ◌&&◌, Option, none, some, List, [], ◌∷◌, ◌++◌, map, arith, All, any, ltb, leb, ◌==◌,
  if◌then◌else◌, if_cases, Bool-cases, leb→le, leb→lt, ==_refl, ◌||◌, take,
}
use r2n.Nat.Reaching.{Reaches, around_near}
use r2n.Nat.{
  port, ip, socket_addr, all_deltas, delta_of, sort_ports, infer_port_delta_pattern, max_by_port,
  is_port, forward, around, delta_or_one, predict, predict_symmetric, is_symmetric, infer_nat_type,
  predict_from_fingerprint, fingerprint, sort_answers,
}

-- An address of the same IP, with a port that is one and is not `max_port`.
abbrev pub IsNear : ℕ → ℕ → ℕ → Type 0
IsNear addr_ip max_port a = (ip a ≡ addr_ip) × (0 < port a) × (port a ≢ max_port)

near :
    (addr_ip max_port p : ℕ)
    → 0 < p
    → p ≤ 65535
    → p ≢ max_port
    → IsNear addr_ip max_port (socket_addr addr_ip p)
near addr_ip max_port p h k other =
    let same : port (socket_addr addr_ip p) ≡ p = omega arith in
    (omega arith, omega (arith, same), λ e. other (sym same ∙ e))

forward-IsNear :
    (n i addr_ip max_port delta : ℕ)
    → 0 < i
    → 0 < delta
    → All (IsNear addr_ip max_port) (forward n i addr_ip max_port delta)
unfolding forward
forward-IsNear zero i addr_ip max_port delta hi hd = tt
forward-IsNear (suc n) i addr_ip max_port delta hi hd =
    let rest = forward-IsNear n (suc i) addr_ip max_port delta (omega arith) hd in
    if_cases (All (IsNear addr_ip max_port)) (is_port (max_port + delta * i))
      (λ (b : is_port (max_port + delta * i) ≡ true).
        let moved : 0 < delta * i = grind arith in
        (
          near addr_ip max_port (max_port + delta * i) (omega (arith, moved)) (ground arith)
              (omega (arith, moved)),
          rest,
        ))
      (λ (b : is_port (max_port + delta * i) ≡ false). rest)

All-snoc :
    (addr_ip max_port a : ℕ) (xs : List ℕ)
    → All (IsNear addr_ip max_port) xs
    → IsNear addr_ip max_port a
    → All (IsNear addr_ip max_port) (xs ++ (a ∷ []))
All-snoc addr_ip max_port a [] h k = (k, tt)
All-snoc addr_ip max_port a (x ∷ xs) h k = (h.0, All-snoc addr_ip max_port a xs h.1 k)

tests :
    (k m : ℕ) (x : Bool)
    → (not (k == 8) && (ltb 8 (m + k) && leb (m + k - 8) 65535) && x) ≡ true
    → (k ≢ 8) × (8 < m + k) × (m + k - 8 ≤ 65535)
tests k m x h = ground arith

around-IsNear :
    (n k addr_ip max_port : ℕ) (predicted : List ℕ)
    → All (IsNear addr_ip max_port) predicted
    → All (IsNear addr_ip max_port) (around n k addr_ip max_port predicted)
unfolding around
around-IsNear zero k addr_ip max_port predicted h = h
around-IsNear (suc n) k addr_ip max_port predicted h =
    let p = max_port + k - 8 in
    let addr = socket_addr addr_ip p in
    let test =
      not (k == 8)
      && (ltb 8 (max_port + k) && leb p 65535)
      && not (any (λ (a : ℕ). a == addr) predicted) in
    around-IsNear n (suc k) addr_ip max_port (if test then predicted ++ (addr ∷ []) else predicted)
      (if_cases (All (IsNear addr_ip max_port)) test
        (λ (b : test ≡ true).
          let (other, above, fits) =
            tests k max_port (not (any (λ (a : ℕ). a == addr) predicted)) b in
          All-snoc addr_ip max_port addr predicted h (
            near addr_ip max_port p (omega (arith, above)) fits
              (λ e. other (omega (arith, e, above)))))
        (λ (b : test ≡ false). h))

-- The last of those of the greatest port, of `best` and the addresses.
abbrev IsLast : ℕ → List ℕ → ℕ → Type 0
IsLast best addrs m =
    (port best ≤ port m)
    × All (λ (a : ℕ). port a ≤ port m) addrs
    × ((m ≡ best) ⊎ (any (λ (a : ℕ). a == m) addrs ≡ true))

or_right : (a b : Bool) → b ≡ true → (a || b) ≡ true
or_right true b h = refl
or_right false b h = h

seen : (m a : ℕ) (addrs : List ℕ) → m ≡ a → any (λ (c : ℕ). c == m) (a ∷ addrs) ≡ true
seen m a addrs e = rw (e, ==_refl a) refl

max_by_port-IsLast : (best : ℕ) (addrs : List ℕ) → IsLast best addrs (max_by_port best addrs)
unfolding max_by_port
max_by_port-IsLast best [] = (omega arith, tt, inl refl)
max_by_port-IsLast best (a ∷ addrs) =
    let (above, all, among) = max_by_port-IsLast a addrs in
    let (above_best, all_best, among_best) = max_by_port-IsLast best addrs in
    let taken = max_by_port a addrs in
    let kept = max_by_port best addrs in
    if_cases (IsLast best (a ∷ addrs)) (leb (port best) (port a))
      (λ (b : leb (port best) (port a) ≡ true). (
        omega (arith, above, leb→le (port best) (port a) b),
        (above, all),
        inr (elim among [
          | inl e ↦ seen taken a addrs e
          | inr there ↦ or_right (a == taken) _ there
        ]),
      ))
      (λ (b : leb (port best) (port a) ≡ false). (
        above_best,
        (omega (arith, above_best, leb→lt (port best) (port a) b), all_best),
        elim among_best [ inl e ↦ inl e | inr there ↦ inr (or_right (a == kept) _ there) ],
      ))

delta_of-positive : (ports : List ℕ) → 0 < delta_or_one (delta_of ports)
delta_of-positive [] = omega arith
delta_of-positive (p ∷ []) = omega arith
delta_of-positive (p ∷ q ∷ ports) =
    let test = (leb 1 (q - p) && leb (q - p) 16) && all_deltas (q - p) p (q ∷ ports) in
    if_cases (λ (o : Option ℕ). 0 < delta_or_one o) test (λ (b : test ≡ true). ground arith)
      (λ (b : test ≡ false). omega arith)

abbrev Predicts : Bool → List ℕ → Option (List ℕ) → Type 0
Predicts is_sym addrs result =
    ((result ≡ none) × ((is_sym ≡ false) ⊎ (addrs ≡ [])))
    ⊎ ((last : ℕ) × (predicted : List ℕ) × (is_sym ≡ true)
        × (result ≡ some predicted)
        × (any (λ (a : ℕ). a == last) addrs ≡ true)
        × All (λ (a : ℕ). port a ≤ port last) addrs
        × All (IsNear (ip last) (port last)) predicted
        × Reaches last predicted)

predict_symmetric-Predicts :
    (delta : Option ℕ) (addrs : List ℕ)
    → 0 < delta_or_one delta
    → Predicts true addrs (predict_symmetric delta addrs)
predict_symmetric-Predicts delta [] h = inl (refl, inr refl)
predict_symmetric-Predicts delta (a ∷ addrs) h =
    let (above, all, among) = max_by_port-IsLast a addrs in
    let last = max_by_port a addrs in
    inr (
      last,
      predict delta last,
      refl,
      refl,
      elim among [ inl e ↦ seen last a addrs e | inr there ↦ or_right (a == last) _ there ],
      (above, all),
      around-IsNear 17 0 (ip last) (port last)
          (forward 8 1 (ip last) (port last) (delta_or_one delta))
          (forward-IsNear 8 1 (ip last) (port last) (delta_or_one delta) (omega arith) h),
      λ p.
          around_near (ip last) (port last) p
            (forward 8 1 (ip last) (port last) (delta_or_one delta)),
    )

infer_port_delta_pattern-positive :
    (addrs : List ℕ) → 0 < delta_or_one (infer_port_delta_pattern addrs)
unfolding infer_port_delta_pattern
infer_port_delta_pattern-positive addrs =
    delta_of-positive (sort_ports (map (λ (a : ℕ). port a) addrs))

-- What is predicted of the answers of STUN servers: nothing unless the NAT is symmetric and there
-- is an address; else addresses of the IP of a seen address whose port is the greatest, with ports
-- other than that and than 0, and among them all those at most 8 away from that.
pub predict_from_fingerprint-fingerprint :
    (answers : List (ℕ × ℕ)) (local_port : ℕ)
    → let fp = fingerprint answers local_port in
      ((predict_from_fingerprint fp ≡ none)
        × ((is_symmetric fp.nat_type ≡ false) ⊎ (fp.public_addrs ≡ [])))
      ⊎ ((last : ℕ) × (predicted : List ℕ) × (is_symmetric fp.nat_type ≡ true)
          × (predict_from_fingerprint fp ≡ some predicted)
          × (any (λ (a : ℕ). a == last) fp.public_addrs ≡ true)
          × All (λ (a : ℕ). port a ≤ port last) fp.public_addrs
          × All (IsNear (ip last) (port last)) predicted
          × Reaches last predicted)
unfolding predict_from_fingerprint fingerprint
predict_from_fingerprint-fingerprint answers local_port =
    let addrs = map (λ (a : ℕ × ℕ). a.0) (take 5 (sort_answers answers)) in
    let delta = infer_port_delta_pattern addrs in
    elim (Bool-cases (is_symmetric (infer_nat_type addrs))) [
      | inl e ↦
          rw e (predict_symmetric-Predicts delta addrs (infer_port_delta_pattern-positive addrs))
      | inr e ↦ rw e (inl (refl, inl refl))
    ]
