-- ===== src/Policy/Deciding.antt =====
-- What a policy decides.
use r2n.Common.{
  ℕ, ◌≡◌, ◌⊎◌, inl, inr, refl, ap, true, false, not, List, [], ◌∷◌, ◌++◌, arith, All, if◌then◌else◌,
  if_cases, Bool-cases, Result, ok, err,
}
use r2n.Policy.{
  TrafficAction, allow, TrafficDirection, Packets, TrafficRule, TrafficPolicy, PacketMeta,
  PolicyError, matches, first_action, decision_for_meta, decision, decide, packet_meta,
}
use r2n.Policy.Matching.{Fits, matches-iff-Fits}

module _ (packets : Packets) where
  -- The first rule that fits gives the action; where none fits, the default does.
  abbrev pub Decides :
      List (TrafficRule packets)
      → TrafficAction
      → TrafficDirection
      → PacketMeta packets
      → TrafficAction
      → Type 0
  Decides rules default_action direction meta action =
      ((front : List (TrafficRule packets)) × (rule : TrafficRule packets) × (back : List
          (TrafficRule packets))
        × (rules ≡ front ++ (rule ∷ back))
        × All (λ r. ¬ Fits packets r direction meta) front
        × Fits packets rule direction meta
        × (action ≡ rule.action))
      ⊎ (All (λ r. ¬ Fits packets r direction meta) rules × (action ≡ default_action))

  not-Fits :
      (rule : TrafficRule packets) (direction : TrafficDirection) (meta : PacketMeta packets)
      → matches packets rule direction meta ≡ false
      → ¬ Fits packets rule direction meta
  not-Fits rule direction meta h f = cc (h, (matches-iff-Fits packets rule direction meta).1 f)

  first_action-Decides :
      (rules : List (TrafficRule packets)) (default_action : TrafficAction)
      (direction : TrafficDirection) (meta : PacketMeta packets)
      → Decides rules default_action direction meta
          (first_action packets rules default_action direction meta)
  unfolding first_action
  first_action-Decides [] default_action direction meta = inr (tt, refl)
  first_action-Decides (rule ∷ rules) default_action direction meta =
      if_cases (Decides (rule ∷ rules) default_action direction meta)
        (matches packets rule direction meta)
        (λ hit.
          inl
            ([], rule, rules, refl, tt, (matches-iff-Fits packets rule direction meta).0 hit, refl))
        (λ miss. elim (first_action-Decides rules default_action direction meta) [
          | inl (front, r, back, split, before, fits, act) ↦ inl (
            rule ∷ front,
            r,
            back,
            ap (◌∷◌ rule) split,
            (not-Fits rule direction meta miss, before),
            fits,
            act,
          )
          | inr (nothing, act) ↦ inr ((not-Fits rule direction meta miss, nothing), act)
        ])

  -- A disabled policy allows every packet. An enabled one gives a packet that does not parse its
  -- default action; for any other packet the first rule that fits decides, or the default action
  -- where none fits.
  pub decision_cases :
      (policy : TrafficPolicy packets) (direction : TrafficDirection) (packet : List ℕ)
      → (policy.enabled ≡ false → decision packets policy direction packet ≡ allow)
        × (policy.enabled ≡ true
            → (e : PolicyError) → packet_meta packets packet ≡ err e
            → decision packets policy direction packet ≡ policy.default_action)
        × (policy.enabled ≡ true
            → (meta : PacketMeta packets) → packet_meta packets packet ≡ ok meta
            → Decides policy.rules policy.default_action direction meta
                (decision packets policy direction packet))
  unfolding decision decision_for_meta
  decision_cases policy direction packet = (
    λ off. rw off,
    λ on e h. rw (on, h),
    λ on meta h.
        rw (on, h) (first_action-Decides policy.rules policy.default_action direction meta),
  )

  -- The rules that are enabled.
  abbrev pub active : List (TrafficRule packets) → List (TrafficRule packets)
  active [] = []
  active (rule ∷ rules) = let rest = active rules in if rule.enabled then rule ∷ rest else rest

  first_action-active :
      (rules : List (TrafficRule packets)) (default_action : TrafficAction)
      (direction : TrafficDirection) (meta : PacketMeta packets)
      → first_action packets (active rules) default_action direction meta
        ≡ first_action packets rules default_action direction meta
  unfolding first_action matches
  first_action-active [] default_action direction meta = refl
  first_action-active (rule ∷ rules) default_action direction meta =
      let ih = first_action-active rules default_action direction meta in
      elim (Bool-cases rule.enabled) [ inl on ↦ ground (arith, ih) | inr off ↦ ground (arith, ih) ]

  -- Rules that are switched off never count: striking them out changes no decision.
  pub decision-active :
      (policy : TrafficPolicy packets) (direction : TrafficDirection) (packet : List ℕ)
      → decision packets (record policy { rules = active policy.rules }) direction packet
        ≡ decision packets policy direction packet
  unfolding decision decision_for_meta
  decision-active policy direction packet = go (packet_meta packets packet)
    where
      go :
          (r : Result PolicyError (PacketMeta packets))
          → (if not policy.enabled
              then allow
              else decide packets (record policy { rules = active policy.rules }) direction r)
            ≡ (if not policy.enabled then allow else decide packets policy direction r)
      go (err e) = refl
      go (ok meta) = rw (first_action-active policy.rules policy.default_action direction meta)
