-- ===== src/Invites/Supernodes.antt =====
-- Which supernodes an invite names.
use Prim.Native.String.{String}
use text.Mathlib.Text.{◌==◌}
use text.Mathlib.TextEquality.{eq_iff}
use text.Mathlib.TextPositions.{eq_refl}
use r2n.Common.{
  ℕ, suc, ◌+◌, ◌≤◌, ◌≡◌, refl, sym, ap, ◌∙◌, Bool, true, false, not, ◌&&◌, ◌||◌, List, [], ◌∷◌,
  ◌++◌, arith, any, ltb, if◌then◌else◌, if_cases, Bool-cases, inl, inr, subst,
}
use r2n.Invites.{InviteData, is_empty, primary_supernode_addr, add_nodes, all_supernodes}

-- How often a text is in a list, and whether it is.
abbrev pub times : String → List String → ℕ
times s [] = 0
times s (t ∷ ts) = let rest = times s ts in if t == s then suc rest else rest

abbrev pub listed : String → List String → Bool
listed s nodes = any (λ (n : String). n == s) nodes

abbrev added : List String → String → List String
added nodes f = if not (is_empty f) && not (listed f nodes) then nodes ++ (f ∷ []) else nodes

listed-times : (s : String) (nodes : List String) → listed s nodes ≡ ltb 0 (times s nodes)
listed-times s [] = refl
listed-times s (t ∷ ts) = elim (Bool-cases (t == s)) [
  | inl e ↦ rw e (ground arith)
  | inr e ↦ rw e (listed-times s ts)
]

times-snoc :
    (s f : String) (nodes : List String)
    → times s (nodes ++ (f ∷ [])) ≡ times s nodes + (if f == s then 1 else 0)
times-snoc s f [] = ground arith
times-snoc s f (t ∷ ts) = elim (Bool-cases (t == s)) [
  | inl e ↦ rw e (omega (arith, times-snoc s f ts))
  | inr e ↦ rw e (times-snoc s f ts)
]

one_or_none : (n : ℕ) (l x : Bool) → n ≤ 1 → l ≡ ltb 0 n → x ≡ false → n ≡ (if l || x then 1 else 0)
one_or_none n l x once e z = rw (e, z) (ground arith)

times-added_self :
    (s : String) (nodes : List String)
    → times s nodes ≤ 1
    → times s (added nodes s) ≡ (if listed s nodes || ((s == s) && not (is_empty s)) then 1 else 0)
times-added_self s nodes once =
    let count = listed-times s nodes in
    elim (Bool-cases (listed s nodes)) [
      | inl l ↦
          let more : ltb 0 (times s nodes) ≡ true = sym count ∙ l in
          let here : times s nodes ≡ 1 = ground arith in
          elim (Bool-cases (is_empty s)) [ inl z ↦ rw (l, z) here | inr z ↦ rw (l, z) here ]
      | inr l ↦
          let less : ltb 0 (times s nodes) ≡ false = sym count ∙ l in
          let gone : times s nodes ≡ 0 = ground arith in
          elim (Bool-cases (is_empty s)) [
            | inl z ↦ rw (l, z, eq_refl s) gone
            | inr z ↦
                rw (l, z, eq_refl s) (times-snoc s s nodes ∙ (rw (eq_refl s) (omega (arith, gone))))
          ]
    ]

times-added :
    (s f : String) (nodes : List String)
    → times s nodes ≤ 1
    → times s (added nodes f) ≡ (if listed s nodes || ((f == s) && not (is_empty s)) then 1 else 0)
times-added s f nodes once = elim (Bool-cases (f == s)) [
  | inl e ↦
      subst
        (λ (g : String).
          times s (added nodes g)
          ≡ (if listed s nodes || ((g == s) && not (is_empty s)) then 1 else 0))
        (sym ((eq_iff f s).0 e)) (times-added_self s nodes once)
  | inr e ↦
      let kept : times s (added nodes f) ≡ times s nodes =
        if_cases (λ (xs : List String). times s xs ≡ times s nodes)
          (not (is_empty f) && not (listed f nodes))
          (λ (b : (not (is_empty f) && not (listed f nodes)) ≡ true).
            times-snoc s f nodes ∙ (rw e (omega arith)))
          (λ (b : (not (is_empty f) && not (listed f nodes)) ≡ false). refl) in
      kept
      ∙ one_or_none (times s nodes) (listed s nodes) ((f == s) && not (is_empty s)) once
          (listed-times s nodes) (rw e refl)
]

if-bound : (x : Bool) → (if x then 1 else 0) ≤ 1
if-bound true = omega arith
if-bound false = omega arith

-- The test of the list is then that of the count.
listed-added :
    (s f : String) (nodes : List String)
    → times s nodes ≤ 1
    → listed s (added nodes f) ≡ (listed s nodes || ((f == s) && not (is_empty s)))
listed-added s f nodes once =
    let test = listed s nodes || ((f == s) && not (is_empty s)) in
    listed-times s (added nodes f) ∙ ap (ltb 0) (times-added s f nodes once) ∙ positive test
  where
    positive : (x : Bool) → ltb 0 (if x then 1 else 0) ≡ x
    positive true = refl
    positive false = refl

regroup : (a b c d : Bool) → ((a || (b && d)) || (c && d)) ≡ (a || ((b || c) && d))
regroup true b c d = refl
regroup false true c true = refl
regroup false true true false = refl
regroup false true false false = refl
regroup false false c d = refl

times-add_nodes :
    (s : String) (nodes fs : List String)
    → times s nodes ≤ 1
    → times s (add_nodes nodes fs)
      ≡ (if listed s nodes || (listed s fs && not (is_empty s)) then 1 else 0)
unfolding add_nodes
times-add_nodes s nodes [] once =
    one_or_none (times s nodes) (listed s nodes) false once (listed-times s nodes) refl
times-add_nodes s nodes (f ∷ fs) once =
    let e = times-added s f nodes once in
    times-add_nodes s (added nodes f) fs (
      subst (λ (n : ℕ). n ≤ 1) (sym e)
        (if-bound (listed s nodes || ((f == s) && not (is_empty s)))))
    ∙ ap (λ (b : Bool). if b || (listed s fs && not (is_empty s)) then 1 else 0)
        (listed-added s f nodes once)
    ∙ ap (λ (b : Bool). if b then 1 else 0)
        (regroup (listed s nodes) (f == s) (listed s fs) (not (is_empty s)))

first_node :
    (p : String) (fs : List String)
    → add_nodes (if not (is_empty p) then p ∷ [] else []) fs ≡ add_nodes [] (p ∷ fs)
unfolding add_nodes
first_node p fs = elim (Bool-cases (is_empty p)) [ inl e ↦ rw e refl | inr e ↦ rw e refl ]

-- The supernodes of an invite are the primary one and the others that it names, each once and
-- none of them empty.
pub times-all_supernodes :
    (d : InviteData) (s : String)
    → times s (all_supernodes d) ≡ (
        if (listed s (primary_supernode_addr d ∷ d.fallback_supernodes)) && not (is_empty s)
        then 1
        else 0)
unfolding all_supernodes
times-all_supernodes d s =
    let primary = primary_supernode_addr d in
    ap (times s) (first_node primary d.fallback_supernodes)
    ∙ times-add_nodes s [] (primary ∷ d.fallback_supernodes) (omega arith)
