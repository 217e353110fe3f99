-- ===== src/Nat/Reaching.antt =====
-- Which ports the prediction does not miss.
use r2n.Common.{
  ℕ, zero, suc, ◌+◌, ◌-◌, ◌≤◌, ◌<◌, ◌≡◌, ◌≢◌, refl, Bool, true, false, not, ◌&&◌, ◌||◌, List, [],
  ◌∷◌, ◌++◌, arith, any, ltb, leb, ◌==◌, if◌then◌else◌, if_cases, Bool-cases, inl, inr, ==_refl,
}
use r2n.Nat.{port, ip, socket_addr, around}

or_true : (a b : Bool) → b ≡ true → (a || b) ≡ true
or_true true b h = refl
or_true false b h = h

or_keeps : (a b c : Bool) → ((b ≡ true) → c ≡ true) → (a || b) ≡ true → (a || c) ≡ true
or_keeps true b c f h = refl
or_keeps false b c f h = f h

any-append : (f : ℕ → Bool) (xs ys : List ℕ) → any f xs ≡ true → any f (xs ++ ys) ≡ true
any-append f [] ys h = cc h
any-append f (x ∷ xs) ys h = or_keeps (f x) (any f xs) (any f (xs ++ ys)) (any-append f xs ys) h

any_last : (f : ℕ → Bool) (xs : List ℕ) (a : ℕ) → f a ≡ true → any f (xs ++ (a ∷ [])) ≡ true
any_last f [] a h = rw h refl
any_last f (x ∷ xs) a h = or_true (f x) _ (any_last f xs a h)

around_keeps :
    (f : ℕ → Bool) (n k addr_ip max_port : ℕ) (predicted : List ℕ)
    → any f predicted ≡ true
    → any f (around n k addr_ip max_port predicted) ≡ true
unfolding around
around_keeps f zero k addr_ip max_port predicted h = h
around_keeps f (suc n) k addr_ip max_port predicted h =
    let p = max_port + k - 8 in
    let addr = socket_addr addr_ip p in
    let test =
      not (k == 8)
      && (ltb 8 (max_port + k) && leb p 65535)
      && not (any (λ (a : ℕ). a == addr) predicted) in
    around_keeps f n (suc k) addr_ip max_port (if test then predicted ++ (addr ∷ []) else predicted)
      (if_cases (λ (xs : List ℕ). any f xs ≡ true) test (λ _. any-append f predicted (addr ∷ []) h)
        (λ _. h))

already :
    (k m : ℕ) (x : Bool)
    → k ≢ 8
    → 8 < m + k
    → m + k - 8 ≤ 65535
    → (not (k == 8) && (ltb 8 (m + k) && leb (m + k - 8) 65535) && not x) ≡ false
    → x ≡ true
already k m x ne lo hi h = ground arith

included :
    (k addr_ip max_port : ℕ) (predicted : List ℕ)
    → k ≢ 8
    → 8 < max_port + k
    → max_port + k - 8 ≤ 65535
    → let p = max_port + k - 8 in
      let addr = socket_addr addr_ip p in
      any
        (λ (a : ℕ). a == addr)
        (if not (k == 8)
            && (ltb 8 (max_port + k) && leb p 65535)
            && not (any (λ (a : ℕ). a == addr) predicted)
          then predicted ++ (addr ∷ [])
          else predicted)
      ≡ true
included k addr_ip max_port predicted ne lo hi =
    let p = max_port + k - 8 in
    let addr = socket_addr addr_ip p in
    let test =
      not (k == 8)
      && (ltb 8 (max_port + k) && leb p 65535)
      && not (any (λ (a : ℕ). a == addr) predicted) in
    if_cases (λ (xs : List ℕ). any (λ (a : ℕ). a == addr) xs ≡ true) test
      (λ _. any_last (λ (a : ℕ). a == addr) predicted addr (==_refl addr))
      (λ (b : test ≡ false). already k max_port (any (λ (a : ℕ). a == addr) predicted) ne lo hi b)

around_reaches :
    (n k j addr_ip max_port : ℕ) (predicted : List ℕ)
    → k ≤ j
    → j < k + n
    → j ≢ 8
    → 8 < max_port + j
    → max_port + j - 8 ≤ 65535
    → any
        (λ (a : ℕ). a == socket_addr addr_ip (max_port + j - 8))
        (around n k addr_ip max_port predicted)
      ≡ true
unfolding around
around_reaches zero k j addr_ip max_port predicted from to ne lo hi =
    let bad : ⊥ = omega arith in elim bad [ ]
around_reaches (suc n) k j addr_ip max_port predicted from to ne lo hi =
    elim (Bool-cases (ltb k j)) [
      | inl less ↦
          around_reaches n (suc k) j addr_ip max_port _ (ground arith) (omega arith) ne lo hi
      | inr at ↦
          let same : j ≡ k = ground arith in
          around_keeps (λ (a : ℕ). a == socket_addr addr_ip (max_port + j - 8)) n (suc k) addr_ip
            max_port _
            (rw same (
              included k addr_ip max_port predicted (λ e. ne (omega (arith, same, e)))
                (omega (arith, same)) (omega (arith, same))))
    ]

-- The other ports that are at most 8 away from the address's are among the addresses.
abbrev pub Reaches : ℕ → List ℕ → Type 0
Reaches last predicted =
    (p : ℕ)
    → p ≢ port last
    → p ≤ port last + 8
    → port last ≤ p + 8
    → 0 < p
    → p ≤ 65535
    → any (λ (a : ℕ). a == socket_addr (ip last) p) predicted ≡ true

pub around_near :
    (addr_ip max_port p : ℕ) (predicted : List ℕ)
    → p ≢ max_port
    → p ≤ max_port + 8
    → max_port ≤ p + 8
    → 0 < p
    → p ≤ 65535
    → any (λ (a : ℕ). a == socket_addr addr_ip p) (around 17 0 addr_ip max_port predicted) ≡ true
around_near addr_ip max_port p predicted ne hi lo pos fits =
    let at : p ≡ max_port + (p + 8 - max_port) - 8 = omega arith in
    rw at (
      around_reaches 17 0 (p + 8 - max_port) addr_ip max_port predicted (omega arith) (omega arith)
        (λ e. ne (omega (arith, e))) (omega arith) (omega arith))
