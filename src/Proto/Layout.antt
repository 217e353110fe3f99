-- ===== src/Proto/Layout.antt =====
-- Runs of writes that follow one another in a buffer.
use r2n.Common.{
  ℕ, ◌+◌, ◌≤◌, ◌≡◌, refl, ap, ◌∙◌, List, [], ◌∷◌, ◌++◌, length, take, drop, arith, take-append,
  drop-append, drop-drop, length-append, take-append-drop,
}
use r2n.Proto.{write, writes}
use native.Mathlib.Nat.{add_assoc, add-zero, zero-add}
use mathlib.Core.List.{append_assoc}

-- Each write begins where the one before it ends.
abbrev pub IsContiguous : ℕ → List (ℕ × List ℕ) → Type 0
IsContiguous n [] = Unit {0}
IsContiguous n ((off, bs) ∷ ws) = (off ≡ n) × IsContiguous (n + length bs) ws

abbrev pub written : List (ℕ × List ℕ) → List ℕ
written [] = []
written ((off, bs) ∷ ws) = bs ++ written ws

write_next :
    (n : ℕ) (p bs buf : List ℕ)
    → length p ≡ n
    → write n bs (p ++ drop n buf) ≡ (p ++ bs) ++ drop (n + length bs) buf
write_next n p bs buf h = rw (
  take-append n p (drop n buf) h,
  ← drop-drop n (length bs) (p ++ drop n buf),
  drop-append n p (drop n buf) h,
  drop-drop n (length bs) buf,
  append_assoc p bs,
)

writes_next :
    (n : ℕ) (p buf : List ℕ) (ws : List (ℕ × List ℕ))
    → length p ≡ n
    → IsContiguous n ws
    → writes ws (p ++ drop n buf) ≡ p ++ (written ws ++ drop (n + length (written ws)) buf)
writes_next n p buf [] h c = rw (add-zero n)
writes_next n p buf ((off, bs) ∷ ws) h (e, c) =
    rw (e, write_next n p bs buf h)
      (writes_next (n + length bs) (p ++ bs) buf ws (omega (arith, length-append p bs)) c
        ∙ rw (
          append_assoc p bs,
          append_assoc bs (written ws),
          length-append bs (written ws),
          add_assoc n (length bs),
        ))

-- Contiguous writes from the start of a buffer replace its front and leave its rest.
pub writes-written :
    (buf : List ℕ) (ws : List (ℕ × List ℕ))
    → IsContiguous 0 ws
    → writes ws buf ≡ written ws ++ drop (length (written ws)) buf
writes-written buf ws c = writes_next 0 [] buf ws refl c ∙ rw zero-add

-- The bytes to write are those that stand there, within the buffer.
abbrev pub Holds : List ℕ → List (ℕ × List ℕ) → Type 0
Holds buf [] = Unit {0}
Holds buf ((off, bs) ∷ ws) =
    (bs ≡ take (length bs) (drop off buf)) × (off + length bs ≤ length buf) × Holds buf ws

write_same :
    (off : ℕ) (bs buf : List ℕ) → bs ≡ take (length bs) (drop off buf) → write off bs buf ≡ buf
write_same off bs buf e =
    ap (λ (xs : List ℕ). take off buf ++ (xs ++ drop (off + length bs) buf)) e
    ∙ rw (
      ← drop-drop off (length bs) buf,
      take-append-drop (length bs) (drop off buf),
      take-append-drop off buf,
    )

-- Writing back what a buffer holds leaves it alone.
pub writes_same :
    (buf : List ℕ) (ws us : List (ℕ × List ℕ))
    → Holds buf ws
    → writes (ws ++ us) buf ≡ writes us buf
writes_same buf [] us h = refl
writes_same buf ((off, bs) ∷ ws) us (e, fits, h) =
    ap (writes (ws ++ us)) (write_same off bs buf e) ∙ writes_same buf ws us h
