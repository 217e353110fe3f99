-- ===== src/Dataplane/Incoming/Checks.antt =====
-- Which headers are taken, and that a flooded frame is taken once.
use r2n.Common.{
  ℕ, ◌≡◌, ◌≢◌, ◌↔◌, refl, sym, ap, ◌∙◌, Bool, true, false, not, ◌&&◌, ◌||◌, Option, none, some,
  arith, ◌==◌, ==_iff, if◌then◌else◌,
}
use r2n.Proto.{DataHeader, protocol_version}
use r2n.Dataplane.Frames.{header_is_flood}
use r2n.Dataplane.Flood.{SeenFloodPackets, insert_if_new}
use r2n.Dataplane.Incoming.{Incoming, drop_packet, flood_result, in_room, validate_incoming_header}

-- What a header must fulfil in a room.
pub record Accepts (now : ℕ) (header : DataHeader) (s : Incoming) : Type 0 where
  pub room : s.room_id ≡ some header.room_id
  pub version : header.version ≡ protocol_version
  pub not_from_here : header.src_node ≢ s.local_node_id
  pub not_of_here : header.origin_node ≢ s.local_node_id
  pub to_here : header_is_flood header ≡ false → header.dst_node ≡ s.local_node_id
  pub flood_alive : header_is_flood header ≡ true → (header.ttl ≢ 0) × (header.packet_id ≢ 0)
  pub flood_new :
      header_is_flood header ≡ true
      → (insert_if_new now (header.origin_node, header.packet_id) s.seen_flood).0 ≡ true

flood_result-true :
    (header : DataHeader) (s : Incoming) (r : Bool × SeenFloodPackets)
    → ((flood_result header s r).0 ≡ true) ↔ (r.0 ≡ true)
flood_result-true header s (true, seen) = (λ h. h, λ h. h)
flood_result-true header s (false, seen) = (λ h. h, λ h. h)

-- The chain of tests of `in_room`, on any outcomes.
abbrev pub tests :
    Bool
    → Bool
    → Bool
    → Bool
    → Bool
    → Bool
    → Bool
    → Bool
    → Incoming
    → Incoming
    → Bool × Incoming
    → Bool × Incoming
tests v r a b f d t p u w x =
    if not v || not r
    then (false, u)
    else if a || b
    then (false, u)
    else if not f && not d
    then (false, u)
    else if not f
    then (true, w)
    else if t || p
    then (false, u)
    else x

chain :
    (v r a b f d t p : Bool) (u w : Incoming) (x : Bool × Incoming)
    → ((tests v r a b f d t p u w x).0 ≡ true) ↔ (
        (v ≡ true)
        × (r ≡ true)
        × (a ≡ false)
        × (b ≡ false)
        × (f ≡ false → d ≡ true)
        × (f ≡ true → (t ≡ false) × (p ≡ false) × (x.0 ≡ true)))
chain false r a b f d t p u w x = (λ h. cc, λ h. cc h.0)
chain true false a b f d t p u w x = (λ h. cc, λ h. cc h.1)
chain true true true b f d t p u w x = (λ h. cc, λ h. cc h.2)
chain true true false true f d t p u w x = (λ h. cc, λ h. cc h.3)
chain true true false false false false t p u w x = (λ h. cc, λ h. cc (h.4 refl))
chain true true false false false true t p u w x =
    (λ h. (refl, refl, refl, refl, λ _. refl, λ e. cc e), λ h. refl)
chain true true false false true d true p u w x = (λ h. cc, λ h. cc (h.5 refl).0)
chain true true false false true d false true u w x = (λ h. cc, λ h. cc (h.5 refl).1)
chain true true false false true d false false u w x =
    (λ h. (refl, refl, refl, refl, λ e. cc e, λ _. (refl, refl, h)), λ h. (h.5 refl).2)

differs : (a b : ℕ) → ((a == b) ≡ false) ↔ (a ≢ b)
differs a b = ground arith

-- A header is taken exactly when the node is in the header's room, the version is the protocol's,
-- neither the sender nor the origin is this node, a frame that is not flooded is for this node, and
-- a flooded one has a TTL and an id other than 0 and was not seen of late.
pub validate_incoming_header-iff-Accepts :
    (now : ℕ) (header : DataHeader) (s : Incoming)
    → ((validate_incoming_header now header s).0 ≡ true) ↔ Accepts now header s
unfolding validate_incoming_header
validate_incoming_header-iff-Accepts now header s = go s.room_id refl
  where
    seen : Bool × SeenFloodPackets
    seen = insert_if_new now (header.origin_node, header.packet_id) s.seen_flood

    go :
        (room : Option ℕ)
        → s.room_id ≡ room
        → ((in_room now header s room).0 ≡ true) ↔ Accepts now header s
    go none e = (λ h. cc, λ h. cc (h.room, e))
    go (some room) e =
        let (to, from) =
          chain (header.version == protocol_version) (header.room_id == room)
            (header.src_node == s.local_node_id) (header.origin_node == s.local_node_id)
            (header_is_flood header) (header.dst_node == s.local_node_id) (header.ttl == 0)
            (header.packet_id == 0) (drop_packet header s).1 s (flood_result header s seen) in
        (
          λ h.
              let (v, r, a, b, d, t) = to h in
              record {
                room = e ∙ ap (λ (n : ℕ). some n) (sym ((==_iff header.room_id room).0 r));
                version = (==_iff header.version protocol_version).0 v;
                not_from_here = (differs header.src_node s.local_node_id).0 a;
                not_of_here = (differs header.origin_node s.local_node_id).0 b;
                to_here = λ no. (==_iff header.dst_node s.local_node_id).0 (d no);
                flood_alive = λ yes.
                    let (ttl, id, x) = t yes in
                    ((differs header.ttl 0).0 ttl, (differs header.packet_id 0).0 id);
                flood_new =
                    λ yes. let (ttl, id, x) = t yes in (flood_result-true header s seen).0 x;
              },
          λ h.
              let same : header.room_id ≡ room = cc (h.room, e) in
              from (
                (==_iff header.version protocol_version).1 h.version,
                (==_iff header.room_id room).1 same,
                (differs header.src_node s.local_node_id).1 h.not_from_here,
                (differs header.origin_node s.local_node_id).1 h.not_of_here,
                λ no. (==_iff header.dst_node s.local_node_id).1 (h.to_here no),
                λ yes. (
                  (differs header.ttl 0).1 (h.flood_alive yes).0,
                  (differs header.packet_id 0).1 (h.flood_alive yes).1,
                  (flood_result-true header s seen).1 (h.flood_new yes),
                ),
              ),
        )

-- A frame for this node that is not flooded is taken without a change of the state.
pub validate_incoming_header_unicast :
    (now room_id : ℕ) (header : DataHeader) (s : Incoming)
    → s.room_id ≡ some room_id
    → header.room_id ≡ room_id
    → header.version ≡ protocol_version
    → header.src_node ≢ s.local_node_id
    → header.origin_node ≢ s.local_node_id
    → header.dst_node ≡ s.local_node_id
    → header_is_flood header ≡ false
    → validate_incoming_header now header s ≡ (true, s)
unfolding validate_incoming_header
validate_incoming_header_unicast now room_id header s in_it room version_ok src origin dst flood =
    ap (in_room now header s) in_it
    ∙ rw
        (
          (==_iff header.version protocol_version).1 version_ok,
          (==_iff header.room_id room_id).1 room,
          (differs header.src_node s.local_node_id).1 src,
          (differs header.origin_node s.local_node_id).1 origin,
          (==_iff header.dst_node s.local_node_id).1 dst,
          flood,
        )
        refl
