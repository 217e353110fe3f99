-- ===== src/Crypto/Replay.antt =====
-- No nonce is accepted twice.
use r2n.Common.{
  ℕ, ◌-◌, ◌%◌, ◌≡◌, refl, ap, Bool, true, false, Option, none, some, List, [], ◌∷◌, All, arith,
  if◌then◌else◌, if_cases, ◌≢◌, min,
}
use r2n.Common.Bits.{shl64, test_bit-set_bit_self, test_bit-set_bit_keep, test_bit-shl64}
use r2n.Crypto.{
  ReplayWindow, Profile, debug, release, Aead, Outcome, done, failed, panicked, new_window,
  check_replay_window, advance_replay_window, decrypt, decrypt_in_place, finish,
}

-- The nonce that was marked is refused from then on.
advance-blocks :
    (profile : Profile) (win w : ReplayWindow) (nonce : ℕ)
    → check_replay_window win nonce ≡ true
    → advance_replay_window profile win nonce ≡ some w
    → check_replay_window w nonce ≡ false
unfolding check_replay_window advance_replay_window
advance-blocks debug win w nonce h e = ground (
  arith,
  test_bit-set_bit_self (shl64 win.bitmap (min (nonce - win.last_nonce) 64)) 0,
  test_bit-set_bit_self win.bitmap (win.last_nonce - nonce),
)
advance-blocks release win w nonce h e = ground (
  arith,
  test_bit-set_bit_self (shl64 win.bitmap (min (nonce - win.last_nonce) 64 % 64)) 0,
  test_bit-set_bit_self win.bitmap ((win.last_nonce - nonce) % 64),
)

-- Marking a nonce that passed the check unblocks no other.
advance-keeps :
    (profile : Profile) (win w : ReplayWindow) (nonce n : ℕ)
    → check_replay_window win nonce ≡ true
    → advance_replay_window profile win nonce ≡ some w
    → check_replay_window win n ≡ false
    → check_replay_window w n ≡ false
unfolding check_replay_window advance_replay_window
advance-keeps debug win w nonce n h e k = ground (
  arith,
  test_bit-shl64 win.bitmap (min (nonce - win.last_nonce) 64) (win.last_nonce - n) (nonce - n),
  test_bit-set_bit_keep (shl64 win.bitmap (min (nonce - win.last_nonce) 64)) 0 (nonce - n),
  test_bit-set_bit_keep win.bitmap (win.last_nonce - nonce) (win.last_nonce - n),
)
advance-keeps release win w nonce n h e k = ground (
  arith,
  test_bit-shl64 win.bitmap (min (nonce - win.last_nonce) 64 % 64) (win.last_nonce - n) (nonce - n),
  test_bit-set_bit_keep (shl64 win.bitmap (min (nonce - win.last_nonce) 64 % 64)) 0 (nonce - n),
  test_bit-set_bit_keep win.bitmap ((win.last_nonce - nonce) % 64) (win.last_nonce - n),
)

finish-done :
    (m : Option ReplayWindow) (text bytes : List ℕ) (w : ReplayWindow)
    → finish m text ≡ done (w, bytes)
    → m ≡ some w
finish-done none text bytes w e = cc
finish-done (some win) text bytes w e = cc

-- What an accepted frame went through.
abbrev Accepts : Profile → ReplayWindow → ℕ → ReplayWindow → Type 0
Accepts profile win nonce w =
    (check_replay_window win nonce ≡ true) × (advance_replay_window profile win nonce ≡ some w)

opened :
    (passes short : Bool) (m : Option (List ℕ)) (a : Option ReplayWindow) (w : ReplayWindow)
    (bytes : List ℕ)
    → (if passes
        then (if short then failed else elim m [ none ↦ failed | some text ↦ finish a text ])
        else failed)
      ≡ done (w, bytes)
    → (passes ≡ true) × (a ≡ some w)
opened true false (some text) a w bytes e = (refl, finish-done a text bytes w e)
opened _ _ _ a w bytes e = cc

module _ (aead : Aead) (profile : Profile) where
  decrypt_in_place-Accepts :
      (win w : ReplayWindow) (nonce : ℕ) (aad buffer text : List ℕ)
      → decrypt_in_place aead profile win nonce aad buffer ≡ done (w, text)
      → Accepts profile win nonce w
  unfolding decrypt_in_place
  decrypt_in_place-Accepts win w nonce aad buffer text e = opened _ _ _ _ w text e

  decrypt-Accepts :
      (win w : ReplayWindow) (nonce : ℕ) (ciphertext text : List ℕ)
      → decrypt aead profile win nonce ciphertext ≡ done (w, text)
      → Accepts profile win nonce w
  unfolding decrypt
  decrypt-Accepts win w nonce ciphertext text e = opened _ _ _ _ w text e

-- A call of `decrypt_in_place`, or of `decrypt`, which takes no associated data.
pub data Call : Type 0 where
  in_place : ℕ → List ℕ → List ℕ → Call
  copying : ℕ → List ℕ → Call

abbrev nonce_of : Call → ℕ
nonce_of (in_place nonce aad buffer) = nonce
nonce_of (copying nonce ciphertext) = nonce

-- A cipher in use: after a panic its mutex is poisoned, and every later call panics.
pub record Receiver : Type 0 where
  pub window : ReplayWindow
  pub poisoned : Bool
  pub accepted : List ℕ

abbrev pub new_receiver : Receiver
new_receiver = record { window = new_window; poisoned = false; accepted = [] }

abbrev settle : Receiver → ℕ → Outcome (ReplayWindow × List ℕ) → Receiver
settle r nonce (done (w, text)) = record r { window = w; accepted = nonce ∷ r.accepted }
settle r nonce failed = r
settle r nonce panicked = record r { poisoned = true }

module _ (aead : Aead) (profile : Profile) where
  abbrev call : ReplayWindow → Call → Outcome (ReplayWindow × List ℕ)
  call win (in_place nonce aad buffer) = decrypt_in_place aead profile win nonce aad buffer
  call win (copying nonce ciphertext) = decrypt aead profile win nonce ciphertext

  unfoldable pub receive : Receiver → Call → Receiver
  receive r c = if r.poisoned then r else settle r (nonce_of c) (call r.window c)

  unfoldable pub receive_all : Receiver → List Call → Receiver
  receive_all r [] = r
  receive_all r (c ∷ cs) = receive_all (receive r c) cs

abbrev pub Distinct : List ℕ → Type 0
Distinct [] = Unit {0}
Distinct (x ∷ xs) = All (λ y. y ≢ x) xs × Distinct xs

abbrev Blocked : ReplayWindow → List ℕ → Type 0
Blocked w = All (λ n. check_replay_window w n ≡ false)

Blocked-ne :
    (w : ReplayWindow) (nonce : ℕ) (ns : List ℕ)
    → check_replay_window w nonce ≡ true
    → Blocked w ns
    → All (λ n. n ≢ nonce) ns
Blocked-ne w nonce [] h b = tt
Blocked-ne w nonce (n ∷ ns) h b =
    (λ e. cc (h, b.0, ap (check_replay_window w) e), Blocked-ne w nonce ns h b.1)

Blocked-keeps :
    (profile : Profile) (win w : ReplayWindow) (nonce : ℕ) (ns : List ℕ)
    → Accepts profile win nonce w
    → Blocked win ns
    → Blocked w ns
Blocked-keeps profile win w nonce [] a b = tt
Blocked-keeps profile win w nonce (n ∷ ns) a b =
    (advance-keeps profile win w nonce n a.0 a.1 b.0, Blocked-keeps profile win w nonce ns a b.1)

record Inv (r : Receiver) : Type 0 where
  distinct : Distinct r.accepted
  blocked : Blocked r.window r.accepted

module _ (aead : Aead) (profile : Profile) where
  call-Accepts :
      (win w : ReplayWindow) (c : Call) (text : List ℕ)
      → call aead profile win c ≡ done (w, text)
      → Accepts profile win (nonce_of c) w
  call-Accepts win w (in_place nonce aad buffer) text e =
      decrypt_in_place-Accepts aead profile win w nonce aad buffer text e
  call-Accepts win w (copying nonce ciphertext) text e =
      decrypt-Accepts aead profile win w nonce ciphertext text e

  settle-Inv :
      (r : Receiver) (nonce : ℕ) (o : Outcome (ReplayWindow × List ℕ))
      → ((w : ReplayWindow) (text : List ℕ) → o ≡ done (w, text) → Accepts profile r.window nonce w)
      → Inv r
      → Inv (settle r nonce o)
  settle-Inv r nonce (done (w, text)) h v =
      let a = h w text refl in
      record {
        distinct = (Blocked-ne r.window nonce r.accepted a.0 v.blocked, v.distinct);
        blocked = (
          advance-blocks profile r.window w nonce a.0 a.1,
          Blocked-keeps profile r.window w nonce r.accepted a v.blocked,
        );
      }
  settle-Inv r nonce failed h v = v
  settle-Inv r nonce panicked h v = record { distinct = v.distinct; blocked = v.blocked }

  receive-Inv : (r : Receiver) (c : Call) → Inv r → Inv (receive aead profile r c)
  unfolding receive
  receive-Inv r c v =
      if_cases Inv r.poisoned (λ _. v)
        (λ _.
          settle-Inv r (nonce_of c) (call aead profile r.window c)
            (λ w text e. call-Accepts r.window w c text e) v)

  receive_all-Inv : (r : Receiver) (cs : List Call) → Inv r → Inv (receive_all aead profile r cs)
  unfolding receive_all
  receive_all-Inv r [] v = v
  receive_all-Inv r (c ∷ cs) v = receive_all-Inv (receive aead profile r c) cs (receive-Inv r c v)

-- Whatever frames arrive, in whatever order, and whatever the cipher makes of them: in either build
-- profile, no two frames that a cipher accepts have the same nonce.
pub receive_all-Distinct :
    (aead : Aead) (profile : Profile) (cs : List Call)
    → Distinct (receive_all aead profile new_receiver cs).accepted
receive_all-Distinct aead profile cs =
    (receive_all-Inv aead profile new_receiver cs (record { distinct = tt; blocked = tt })).distinct
