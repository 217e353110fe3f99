-- ===== src/Dataplane/Incoming/Replay.antt =====
-- A flooded frame is taken once.
use r2n.Common.{
  ℕ, ◌+◌, ◌≤◌, ◌<◌, ◌≡◌, ◌⊎◌, inl, inr, refl, ap, ◌∙◌, Bool, true, false, Option, none, some, List,
  [], ◌∷◌, arith, All, length, ◌==◌, Bool-cases,
}
use r2n.Proto.{DataHeader, protocol_version}
use r2n.Dataplane.Frames.{header_is_flood}
use r2n.Dataplane.Flood.{
  Key, SeenFloodPackets, insert_if_new, seen_flood_capacity, seen_flood_window,
}
use r2n.Dataplane.Flood.Laws.{Agrees, insert_all}
use r2n.Dataplane.Flood.Window.{insert_if_new_twice, Within}
use r2n.Dataplane.Incoming.{Incoming, drop_packet, flood_result, in_room, validate_incoming_header}
use r2n.Dataplane.Incoming.Checks.{tests, validate_incoming_header-iff-Accepts}

-- Frames with the times at which they come in.
pub validate_all : Incoming → List (ℕ × DataHeader) → Incoming
validate_all s [] = s
validate_all s ((now, header) ∷ frames) =
    validate_all (validate_incoming_header now header s).1 frames

-- Every frame comes in by `at` and thirty seconds.
abbrev pub AllWithin : ℕ → List (ℕ × DataHeader) → Type 0
AllWithin at = All (λ frame. frame.0 ≤ at + seen_flood_window)

-- What the chain of tests does to the seen packets: nothing, or what its last outcome does; and
-- that one where a flooded frame is taken.
tests-seen :
    (v r a b f d t p : Bool) (u w : Incoming) (x : Bool × Incoming)
    → u.seen_flood ≡ w.seen_flood
    → let result = tests v r a b f d t p u w x in
      ((result.1.seen_flood ≡ w.seen_flood) ⊎ (result ≡ x))
      × (f ≡ true → result.0 ≡ true → result ≡ x)
tests-seen false r a b f d t p u w x e = (inl e, λ g h. cc h)
tests-seen true false a b f d t p u w x e = (inl e, λ g h. cc h)
tests-seen true true true b f d t p u w x e = (inl e, λ g h. cc h)
tests-seen true true false true f d t p u w x e = (inl e, λ g h. cc h)
tests-seen true true false false false false t p u w x e = (inl e, λ g h. cc h)
tests-seen true true false false false true t p u w x e = (inl refl, λ g _. cc g)
tests-seen true true false false true d true p u w x e = (inl e, λ g h. cc h)
tests-seen true true false false true d false true u w x e = (inl e, λ g h. cc h)
tests-seen true true false false true d false false u w x e = (inr refl, λ g h. refl)

-- The packets that are seen after a flooded frame was looked up.
abbrev looked_up : ℕ → DataHeader → Incoming → SeenFloodPackets
looked_up now header s = (insert_if_new now (header.origin_node, header.packet_id) s.seen_flood).1

flood_result-seen :
    (header : DataHeader) (s : Incoming) (r : Bool × SeenFloodPackets)
    → (flood_result header s r).1.seen_flood ≡ r.1
flood_result-seen header s (true, seen) = refl
flood_result-seen header s (false, seen) = refl

-- A header leaves the seen packets as they are or looks its own up; a flooded one that is taken
-- does the latter.
validated-seen :
    (now : ℕ) (header : DataHeader) (s : Incoming)
    → let result = validate_incoming_header now header s in
      ((result.1.seen_flood ≡ s.seen_flood) ⊎ (result.1.seen_flood ≡ looked_up now header s))
      × (header_is_flood header ≡ true
          → result.0 ≡ true
          → result.1.seen_flood ≡ looked_up now header s)
unfolding validate_incoming_header
validated-seen now header s = go s.room_id
  where
    go :
        (room : Option ℕ)
        → let result = in_room now header s room in
          ((result.1.seen_flood ≡ s.seen_flood) ⊎ (result.1.seen_flood ≡ looked_up now header s))
          × (header_is_flood header ≡ true
              → result.0 ≡ true
              → result.1.seen_flood ≡ looked_up now header s)
    go none = (inl refl, λ g h. cc h)
    go (some room) =
        let key : Key = (header.origin_node, header.packet_id) in
        let last = flood_result header s (insert_if_new now key s.seen_flood) in
        let seen = flood_result-seen header s (insert_if_new now key s.seen_flood) in
        let (which, flooded) =
          tests-seen (header.version == protocol_version) (header.room_id == room)
            (header.src_node == s.local_node_id) (header.origin_node == s.local_node_id)
            (header_is_flood header) (header.dst_node == s.local_node_id) (header.ttl == 0)
            (header.packet_id == 0) (drop_packet header s).1 s last refl in
        (
          elim which [
            | inl e ↦ inl e
            | inr e ↦ inr (ap (λ (r : Bool × Incoming). r.1.seen_flood) e ∙ seen)
          ],
          λ g h. ap (λ (r : Bool × Incoming). r.1.seen_flood) (flooded g h) ∙ seen,
        )

-- The frames act on the seen packets as some arrivals, at most one for each frame.
validate_all-arrivals :
    (at : ℕ) (s : Incoming) (frames : List (ℕ × DataHeader))
    → AllWithin at frames
    → (arrivals : List (ℕ × Key)) × ((validate_all s frames).seen_flood
        ≡ insert_all s.seen_flood arrivals)
      × (length arrivals ≤ length frames)
      × Within at arrivals
unfolding validate_all insert_all
validate_all-arrivals at s [] w = ([], refl, omega arith, tt)
validate_all-arrivals at s ((now, header) ∷ frames) w =
    let (arrivals, same, few, within) =
      validate_all-arrivals at (validate_incoming_header now header s).1 frames w.1 in
    elim (validated-seen now header s).0 [
      | inl e ↦ (arrivals, rw e at same, omega (arith, few), within)
      | inr e ↦ (
        (now, (header.origin_node, header.packet_id)) ∷ arrivals,
        rw e at same,
        omega (arith, few),
        (w.0, within),
      )
    ]

-- A flooded frame that was taken at a time `at` is refused when a flooded frame with its origin
-- and packet id comes in within thirty seconds of `at`, whatever its other fields are, as long as
-- fewer than 4096 frames, each within that time too, lie between; from any state in which the
-- queue and the set of the seen packets agree.
pub validate_incoming_header_twice :
    (at now : ℕ) (header again : DataHeader) (s : Incoming) (frames : List (ℕ × DataHeader))
    → Agrees s.seen_flood
    → header_is_flood header ≡ true
    → header_is_flood again ≡ true
    → again.origin_node ≡ header.origin_node
    → again.packet_id ≡ header.packet_id
    → (validate_incoming_header at header s).0 ≡ true
    → length frames < seen_flood_capacity
    → AllWithin at frames
    → now ≤ at + seen_flood_window
    → (validate_incoming_header now again
        (validate_all (validate_incoming_header at header s).1 frames)).0
      ≡ false
validate_incoming_header_twice at now header again s frames v flood flood_again origin id taken few
      w soon =
    let first = (validate_incoming_header at header s).1 in
    let (arrivals, same, fewer, within) = validate_all-arrivals at first frames w in
    let accepts = (validate_incoming_header-iff-Accepts at header s).0 taken in
    let refused =
      insert_if_new_twice (header.origin_node, header.packet_id) at now s.seen_flood arrivals v
        (accepts.flood_new flood) (omega arith) within soon in
    elim (Bool-cases (validate_incoming_header now again (validate_all first frames)).0) [
      | inr refused_again ↦ refused_again
      | inl taken_again ↦
          let new_again =
            ((validate_incoming_header-iff-Accepts now again (validate_all first frames)).0
                taken_again).flood_new
              flood_again in
          let here =
            rw (origin, id, same, (validated-seen at header s).1 flood taken) at new_again in
          absurd (cc (here, refused))
    ]
