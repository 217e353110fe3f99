-- ===== src/Discovery/Groups.antt =====
-- What a classification says of the packet's addresses.
use r2n.Common.{
  ℕ, ◌/◌, ◌^◌, ◌≤◌, ◌<◌, ◌≡◌, ◌⊎◌, inl, inr, refl, Bool, true, false, ◌&&◌, ◌||◌, Option, none,
  some, List, arith, leb, ◌==◌, if◌then◌else◌, if_cases,
}
use r2n.Proto.{DataPacketType, broadcast, multicast}
use r2n.Discovery.{
  DiscoveryConfig, is_limited_broadcast, is_subnet_broadcast, is_port, classify_ipv4,
  classify_packet_with_config, udp_destination_port,
}

-- The addresses of the whole network or of the source's, and those of the groups.
abbrev pub IsBroadcast : ℕ → ℕ → Type 0
IsBroadcast src dest = (is_limited_broadcast dest || is_subnet_broadcast src dest) ≡ true

abbrev pub IsMulticast : ℕ → Type 0
IsMulticast dest = (224 ≤ dest / 2 ^ 24) × (dest / 2 ^ 24 ≤ 239)

abbrev pub Sound : ℕ → ℕ → Option DataPacketType → Type 0
Sound src dest result =
    (result ≡ none)
    ⊎ ((result ≡ some broadcast) × IsBroadcast src dest)
    ⊎ ((result ≡ some multicast) × IsMulticast dest)

and_left : (a b : Bool) → (a && b) ≡ true → a ≡ true
and_left true b h = refl
and_left false b h = h

and_right : (a b : Bool) → (a && b) ≡ true → b ≡ true
and_right true b h = h
and_right false b h = cc

or_left : (a b : Bool) → a ≡ true → (a || b) ≡ true
or_left true b h = refl
or_left false b h = cc

or_right : (a b : Bool) → b ≡ true → (a || b) ≡ true
or_right true b h = refl
or_right false b h = h

or-false : (a b : Bool) → a ≡ false → b ≡ false → (a || b) ≡ false
or-false false b h k = k
or-false true b h k = h

classify_ipv4-Sound :
    (config : DiscoveryConfig) (port : Option ℕ) (src dest : ℕ)
    → Sound src dest (classify_ipv4 config port src dest)
classify_ipv4-Sound config port src dest =
    let S = Sound src dest in
    let wide = is_limited_broadcast dest || is_subnet_broadcast src dest in
    let a = config.mdns && ((dest == 0xe00000fb) && is_port 5353 port) in
    let b = config.ssdp && ((dest == 0xeffffffa) && is_port 1900 port) in
    let c = config.netbios && (wide && (is_port 137 port || is_port 138 port)) in
    let d = config.allows_broadcast && is_limited_broadcast dest in
    let e = config.subnet_broadcast && is_subnet_broadcast src dest in
    let f = config.allows_multicast && (leb 224 (dest / 2 ^ 24) && leb (dest / 2 ^ 24) 239) in
    if_cases S a
      (λ (h : a ≡ true).
        let same : dest ≡ 0xe00000fb = ground arith in
        inr (inr (refl, (omega (arith, same), omega (arith, same)))))
      (λ (_ : a ≡ false).
        if_cases S b
          (λ (h : b ≡ true).
            let same : dest ≡ 0xeffffffa = ground arith in
            inr (inr (refl, (omega (arith, same), omega (arith, same)))))
          (λ (_ : b ≡ false).
            if_cases S c
              (λ (h : c ≡ true). inr (inl (refl, and_left wide _ (and_right config.netbios _ h))))
              (λ (_ : c ≡ false).
                if_cases S d
                  (λ (h : d ≡ true).
                    inr (inl (refl, or_left _ _ (and_right config.allows_broadcast _ h))))
                  (λ (_ : d ≡ false).
                    if_cases S e
                      (λ (h : e ≡ true).
                        inr (inl (refl, or_right _ _ (and_right config.subnet_broadcast _ h))))
                      (λ (_ : e ≡ false).
                        if_cases S f
                          (λ (h : f ≡ true). inr (inr (refl, (ground arith, ground arith))))
                          (λ (_ : f ≡ false). inl refl))))))

only : (a b : Bool) → a ≡ true → (a && b) ≡ false → b ≡ false
only true b h k = k
only false b h k = cc

-- Only a packet that passes the last three tests is left.
last_tests :
    (a b c d e f : Bool)
    → ◌≡◌ {A = Option DataPacketType}
        (if a
          then some multicast
          else if b
          then some multicast
          else if c
          then some broadcast
          else if d
          then some broadcast
          else if e
          then some broadcast
          else if f
          then some multicast
          else none)
        none
    → (d ≡ false) × (e ≡ false) × (f ≡ false)
last_tests true b c d e f h = cc
last_tests false true c d e f h = cc
last_tests false false true d e f h = cc
last_tests false false false true e f h = cc
last_tests false false false false true f h = cc
last_tests false false false false false true h = cc
last_tests false false false false false false h = (refl, refl, refl)

out_of_range : (n : ℕ) → (leb 224 n && leb n 239) ≡ false → (n < 224) ⊎ (239 < n)
out_of_range n h = ground arith

-- A packet that is not parsed as an IPv4 one is not classified. Of one that is, whatever the configuration, it is a
-- broadcast only if it goes to everyone or to everyone of its source's network, and as a multicast
-- only if it goes to a group; with the three general classes on, every packet to those is.
pub classify_packet_with_config-Sound :
    (parse : List ℕ → Option (ℕ × ℕ)) (packet : List ℕ) (config : DiscoveryConfig)
    → (parse packet ≡ none → classify_packet_with_config parse packet config ≡ none)
      × ((src dest : ℕ)
          → parse packet ≡ some (src, dest)
          → Sound src dest (classify_packet_with_config parse packet config)
            × (config.allows_broadcast ≡ true
                → config.subnet_broadcast ≡ true
                → config.allows_multicast ≡ true
                → classify_packet_with_config parse packet config ≡ none
                → ((is_limited_broadcast dest || is_subnet_broadcast src dest) ≡ false)
                  × ((dest / 2 ^ 24 < 224) ⊎ (239 < dest / 2 ^ 24))))
unfolding classify_packet_with_config
classify_packet_with_config-Sound parse packet config = (
  λ unparsed. rw unparsed refl,
  λ src dest e. (
    rw e (classify_ipv4-Sound config (udp_destination_port packet) src dest),
    λ b s m h.
        let port = udp_destination_port packet in
        let left : classify_ipv4 config port src dest ≡ none = rw e at h in
        let (no_limited, no_subnet, no_group) =
          last_tests (config.mdns && ((dest == 0xe00000fb) && is_port 5353 port))
            (config.ssdp && ((dest == 0xeffffffa) && is_port 1900 port))
            (config.netbios
              && ((is_limited_broadcast dest || is_subnet_broadcast src dest)
                  && (is_port 137 port || is_port 138 port)))
            (config.allows_broadcast && is_limited_broadcast dest)
            (config.subnet_broadcast && is_subnet_broadcast src dest)
            (config.allows_multicast && (leb 224 (dest / 2 ^ 24) && leb (dest / 2 ^ 24) 239))
            left in
        (
          or-false (is_limited_broadcast dest) (is_subnet_broadcast src dest)
              (only config.allows_broadcast (is_limited_broadcast dest) b no_limited)
              (only config.subnet_broadcast (is_subnet_broadcast src dest) s no_subnet),
          out_of_range (dest / 2 ^ 24) (
              only config.allows_multicast (leb 224 (dest / 2 ^ 24) && leb (dest / 2 ^ 24) 239) m
                no_group),
        ),
  ),
)
