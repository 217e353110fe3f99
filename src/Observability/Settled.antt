-- ===== src/Observability/Settled.antt =====
-- A ping is settled once: by an answer or by running out of time.
use r2n.Common.{
  ℕ, ◌-◌, ◌<◌, ◌≡◌, ◌≢◌, inl, inr, refl, ap, ◌∙◌, true, false, Option, none, some, List, [], ◌∷◌,
  arith, All, ltb, ◌==◌, ==_iff, if_cases, Bool-cases,
}
use r2n.Common.Maps.{Map, lookup, remove, lookup-insert, lookup-remove}
use r2n.Observability.{
  Ping, PeerCounters, MetricsRegistry, counters_of, or_new, set_counters, mark_handshake,
  mark_path_hit, mark_packet_drop, update_rtt, record_ping_sent, pong, record_pong_received,
  timed_out, forget, time_out_peer, time_out_all, check_ping_timeouts, direct, relay,
}
use r2n.Observability.Pings.{
  Event, handshake, hit, drops, discovers, measures, pings, pongs, times_out, event, run,
  discovery-peers,
}

-- Nothing waits for an answer under the number.
abbrev pub Absent : ℕ → ℕ → MetricsRegistry → Type 0
Absent peer seq m = lookup seq (counters_of peer m).pending_pings ≡ none

Absent-set :
    (peer k seq : ℕ) (c : PeerCounters) (m : MetricsRegistry)
    → Absent k seq m
    → (peer ≡ k → lookup seq c.pending_pings ≡ none)
    → Absent k seq (set_counters peer c m)
Absent-set peer k seq c m h own = elim (Bool-cases (peer == k)) [
  | inl same ↦ rw (lookup-insert peer k c m.peers, same) (own ((==_iff peer k).0 same))
  | inr differ ↦ rw (lookup-insert peer k c m.peers, differ) h
]

-- A write that leaves the pings of the peer alone, or takes some away.
Absent-keep :
    (peer k seq : ℕ) (c : PeerCounters) (m : MetricsRegistry)
    → Absent k seq m
    → (Absent peer seq m → lookup seq c.pending_pings ≡ none)
    → Absent k seq (set_counters peer c m)
Absent-keep peer k seq c m h own = Absent-set peer k seq c m h (λ e. own (rw e h))

lookup-remove-none :
    (j seq : ℕ) (waiting : Map Ping)
    → lookup seq waiting ≡ none
    → lookup seq (remove j waiting) ≡ none
lookup-remove-none j seq waiting h = ground (arith, lookup-remove j seq waiting)

forget-none :
    (seq : ℕ) (lost : Map Ping) (c : PeerCounters)
    → lookup seq c.pending_pings ≡ none
    → lookup seq (forget lost c).pending_pings ≡ none
unfolding forget
forget-none seq [] c h = h
forget-none seq ((j, p) ∷ lost) c h =
    forget-none seq lost _ (lookup-remove-none j seq c.pending_pings h)

forget_found :
    (seq : ℕ) (p : Ping) (lost : Map Ping) (c : PeerCounters)
    → lookup seq lost ≡ some p
    → lookup seq (forget lost c).pending_pings ≡ none
unfolding forget lookup
forget_found seq p [] c h = cc
forget_found seq p ((j, q) ∷ lost) c h = elim (Bool-cases (j == seq)) [
  | inl same ↦ forget-none seq lost _ (lookup-remove j seq c.pending_pings ∙ rw same refl)
  | inr differ ↦ forget_found seq p lost _ (rw differ at h)
]

timed_out_found :
    (now timeout seq : ℕ) (p : Ping) (waiting : Map Ping)
    → lookup seq waiting ≡ some p
    → timeout < now - p.sent_at
    → (q : Ping) × (lookup seq (timed_out now timeout waiting) ≡ some q)
unfolding timed_out lookup
timed_out_found now timeout seq p [] h old = cc
timed_out_found now timeout seq p ((j, r) ∷ waiting) h old = elim (Bool-cases (j == seq)) [
  | inl same ↦
      let found : some r ≡ some p = rw same at h in
      let this : r ≡ p = cc in
      let late : ltb timeout (now - r.sent_at) ≡ true =
        ground (arith, ap (λ (x : Ping). x.sent_at) this) in
      (r, rw (late, same) refl)
  | inr differ ↦
      let (q, e) = timed_out_found now timeout seq p waiting (rw differ at h) old in
      (
        q,
        if_cases (λ (l : Map Ping). lookup seq l ≡ some q) (ltb timeout (now - r.sent_at))
            (λ _. rw differ e) (λ _. e),
      )
]

lookup-time_out_all :
    (now timeout k : ℕ) (peers : Map PeerCounters)
    → (or_new (lookup k (time_out_all now timeout peers).1)).pending_pings
      ≡ (time_out_peer now timeout (or_new (lookup k peers))).pending_pings
unfolding time_out_all lookup timed_out forget
lookup-time_out_all now timeout k [] = refl
lookup-time_out_all now timeout k ((peer, c) ∷ peers) = elim (Bool-cases (peer == k)) [
  | inl same ↦ rw same refl
  | inr differ ↦ rw differ (lookup-time_out_all now timeout k peers)
]

-- The event does not send the ping.
abbrev pub IsOther : ℕ → ℕ → Event → Type 0
IsOther peer seq (pings now j i addr is_active) = (j ≡ peer) → i ≢ seq
IsOther peer seq e = Unit

event-Absent :
    (k seq : ℕ) (m : MetricsRegistry) (e : Event)
    → IsOther k seq e
    → Absent k seq m
    → Absent k seq (event m e)
unfolding mark_handshake mark_path_hit mark_packet_drop update_rtt record_ping_sent
    record_pong_received check_ping_timeouts
event-Absent k seq m (handshake peer true) o h = Absent-keep peer k seq _ m h (λ a. a)
event-Absent k seq m (handshake peer false) o h = Absent-keep peer k seq _ m h (λ a. a)
event-Absent k seq m (hit peer direct) o h = Absent-keep peer k seq _ m h (λ a. a)
event-Absent k seq m (hit peer relay) o h = Absent-keep peer k seq _ m h (λ a. a)
event-Absent k seq m (drops none) o h = h
event-Absent k seq m (drops (some peer)) o h = Absent-keep peer k seq _ m h (λ a. a)
event-Absent k seq m (discovers packet_type) o h = rw (discovery-peers packet_type m) h
event-Absent k seq m (measures peer rtt_ms) o h = Absent-keep peer k seq _ m h (λ a. a)
event-Absent k seq m (pings now peer i addr is_active) o h = Absent-set peer k seq _ m h (λ e.
    let other : (i == seq) ≡ false = ground (arith, o e) in
    lookup-insert i seq _ (counters_of peer m).pending_pings ∙ rw (other, e) h)
event-Absent k seq m (pongs now peer i) o h = go (lookup i (counters_of peer m).pending_pings)
  where
    go : (found : Option Ping) → Absent k seq (pong now peer i m found).1
    go none = Absent-keep peer k seq _ m h (λ a. a)
    go (some p) = Absent-keep peer k seq _ m h (λ a. lookup-remove-none i seq _ a)
event-Absent k seq m (times_out now timeout) o h =
    rw (lookup-time_out_all now timeout k m.peers) (forget-none seq _ (counters_of k m) h)

run-Absent :
    (k seq : ℕ) (m : MetricsRegistry) (es : List Event)
    → All (IsOther k seq) es
    → Absent k seq m
    → Absent k seq (run m es)
unfolding run
run-Absent k seq m [] o h = h
run-Absent k seq m (e ∷ es) o h = run-Absent k seq (event m e) es o.1 (event-Absent k seq m e o.0 h)

-- The event settles the ping: an answer to it comes in, or it is found to be too old.
abbrev pub Settles : ℕ → ℕ → MetricsRegistry → Event → Type 0
Settles k seq m (pongs now peer i) = (peer ≡ k) × (i ≡ seq)
Settles k seq m (times_out now timeout) =
    (p : Ping) × (lookup seq (counters_of k m).pending_pings ≡ some p) × (timeout < now - p.sent_at)
Settles k seq m e = ⊥

settled-Absent :
    (k seq : ℕ) (m : MetricsRegistry) (e : Event) → Settles k seq m e → Absent k seq (event m e)
unfolding record_pong_received check_ping_timeouts
settled-Absent k seq m (pongs now peer i) (same_peer, same_seq) =
    go (lookup i (counters_of peer m).pending_pings) refl
  where
    go :
        (found : Option Ping)
        → lookup i (counters_of peer m).pending_pings ≡ found
        → Absent k seq (pong now peer i m found).1
    go none e = Absent-keep peer k seq _ m (cc (e, same_peer, same_seq)) (λ a. a)
    go (some p) e =
        let peer_k : (peer == k) ≡ true = (==_iff peer k).1 same_peer in
        let i_seq : (i == seq) ≡ true = (==_iff i seq).1 same_seq in
        rw (lookup-insert peer k _ m.peers, peer_k) (lookup-remove i seq _ ∙ rw i_seq refl)
settled-Absent k seq m (times_out now timeout) (p, waiting, old) =
    let (q, found) = timed_out_found now timeout seq p _ waiting old in
    rw (lookup-time_out_all now timeout k m.peers) (forget_found seq q _ (counters_of k m) found)
settled-Absent k seq m (handshake a b) s = absurd s
settled-Absent k seq m (hit a b) s = absurd s
settled-Absent k seq m (drops a) s = absurd s
settled-Absent k seq m (discovers a) s = absurd s
settled-Absent k seq m (measures a b) s = absurd s
settled-Absent k seq m (pings a b c d e) s = absurd s

-- A ping that was answered, or that a check found older than its timeout, is settled for good:
-- whatever the registry is told next, unless the ping's number is sent to the peer again, a later
-- answer gives no round-trip time and no address.
pub run_settled :
    (peer seq later : ℕ) (m : MetricsRegistry) (e : Event) (es : List Event)
    → Settles peer seq m e
    → All (IsOther peer seq) es
    → (record_pong_received later peer seq (run (event m e) es)).0 ≡ none
unfolding record_pong_received
run_settled peer seq later m e es s others =
    rw (run-Absent peer seq (event m e) es others (settled-Absent peer seq m e s)) refl
