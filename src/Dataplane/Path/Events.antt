-- ===== src/Dataplane/Path/Events.antt =====
-- The paths of a peer through any events: no address twice, and one of them in use.
use r2n.Common.{
  ℕ, zero, suc, ◌+◌, ◌<◌, ◌≡◌, ◌≢◌, refl, sym, ap, ◌∙◌, Bool, Option, none, some, List, [], ◌∷◌,
  ◌++◌, arith, All, length, length-append, ◌==◌, ==_iff, if_cases, Bool-cases, inl, inr,
}
use r2n.Dataplane.Path.{
  Floats, PathInfo, PathManager, new_path, score, update_rtt, new, get, active_addr, position,
  add_or_update_path, change_first, best, reevaluate, record_success, record_failure, addr_of,
  relay_of, after_first, add_at, reevaluate_paths, is_active_relay,
}

module _ (floats : Floats) where
  open floats use {F, max_value, literal}

  get-lt :
      (ps : List (PathInfo floats)) (i : ℕ)
      → i < length ps
      → (p : PathInfo floats) × (get floats ps i ≡ some p)
  unfolding get
  get-lt [] i h = absurd (omega arith)
  get-lt (p ∷ ps) zero h = (p, refl)
  get-lt (p ∷ ps) (suc i) h = get-lt ps i (omega arith)

  get-some_lt :
      (ps : List (PathInfo floats)) (i : ℕ) (p : PathInfo floats)
      → get floats ps i ≡ some p
      → i < length ps
  unfolding get
  get-some_lt [] i p h = absurd (cc h)
  get-some_lt (q ∷ ps) zero p h = omega arith
  get-some_lt (q ∷ ps) (suc i) p h = omega (arith, get-some_lt ps i p h)

  -- The addresses of the paths.
  abbrev pub NotAt : ℕ → List (PathInfo floats) → Type 0
  NotAt addr = All (λ p. p.addr ≢ addr)

  abbrev pub DistinctAddrs : List (PathInfo floats) → Type 0
  DistinctAddrs [] = Unit
  DistinctAddrs (p ∷ ps) = NotAt p.addr ps × DistinctAddrs ps

  pub record IsValid (m : PathManager floats) : Type 0 where
    pub in_range : m.active_index < length m.paths
    pub distinct : DistinctAddrs m.paths

  change_first-length :
      (f : PathInfo floats → PathInfo floats) (addr : ℕ) (ps : List (PathInfo floats))
      → length (change_first floats f addr ps) ≡ length ps
  unfolding change_first
  change_first-length f addr [] = refl
  change_first-length f addr (p ∷ ps) = ground (arith, change_first-length f addr ps)

  -- A change that keeps the address of a path.
  abbrev KeepsAddr : (PathInfo floats → PathInfo floats) → Type 0
  KeepsAddr f = (p : PathInfo floats) → (f p).addr ≡ p.addr

  change_first-NotAt :
      (f : PathInfo floats → PathInfo floats) (addr other : ℕ) (ps : List (PathInfo floats))
      → KeepsAddr f
      → NotAt other ps
      → NotAt other (change_first floats f addr ps)
  unfolding change_first
  change_first-NotAt f addr other [] keeps h = tt
  change_first-NotAt f addr other (p ∷ ps) keeps h =
      if_cases (NotAt other) (p.addr == addr) (λ _. (λ e. h.0 (sym (keeps p) ∙ e), h.1))
        (λ _. (h.0, change_first-NotAt f addr other ps keeps h.1))

  change_first-Distinct :
      (f : PathInfo floats → PathInfo floats) (addr : ℕ) (ps : List (PathInfo floats))
      → KeepsAddr f
      → DistinctAddrs ps
      → DistinctAddrs (change_first floats f addr ps)
  unfolding change_first
  change_first-Distinct f addr [] keeps h = tt
  change_first-Distinct f addr (p ∷ ps) keeps h =
      if_cases DistinctAddrs (p.addr == addr) (λ _. (rw (keeps p) h.0, h.1))
        (λ _. (
          change_first-NotAt f addr p.addr ps keeps h.0,
          change_first-Distinct f addr ps keeps h.1,
        ))

  best-lt :
      (now i : ℕ) (ps : List (PathInfo floats)) (best_idx : ℕ) (best_score : F)
      → best_idx < i + length ps
      → (best floats now i ps best_idx best_score).0 < i + length ps
  unfolding best
  best-lt now i [] best_idx best_score h = h
  best-lt now i (p ∷ ps) best_idx best_score h =
      let step : i + length (p ∷ ps) ≡ suc i + length ps = omega arith in
      rw step (
        if_cases (λ (r : ℕ × F). r.0 < suc i + length ps) _
          (λ _. best-lt now (suc i) ps i (score floats p) (omega arith))
          (λ _. best-lt now (suc i) ps best_idx best_score (omega arith)))

  reevaluate-IsValid :
      (now : ℕ) (m : PathManager floats)
      → 0 < length m.paths
      → DistinctAddrs m.paths
      → IsValid (reevaluate floats now m)
  unfolding reevaluate
  reevaluate-IsValid now m some_path distinct = record {
    in_range = go m.paths some_path;
    distinct = distinct;
  }
    where
      go :
          (ps : List (PathInfo floats))
          → 0 < length ps
          → reevaluate_paths floats now ps m.active_index < length ps
      go [] h = absurd (omega arith)
      go (p ∷ ps) h = omega (arith, best-lt now 0 (p ∷ ps) 0 max_value (omega arith))

  after_first-none : (o : Option ℕ) → after_first floats o ≡ none → o ≡ none
  after_first-none none h = refl
  after_first-none (some i) h = absurd (cc h)

  position-none :
      (addr : ℕ) (ps : List (PathInfo floats)) → position floats addr ps ≡ none → NotAt addr ps
  unfolding position
  position-none addr [] h = tt
  position-none addr (p ∷ ps) h = elim (Bool-cases (p.addr == addr)) [
    | inl same ↦ absurd (cc (rw same at h))
    | inr differ ↦ (
      λ e. cc ((==_iff p.addr addr).1 e, differ),
      position-none addr ps (after_first-none (position floats addr ps) (rw differ at h)),
    )
  ]

  NotAt-append :
      (addr : ℕ) (ps qs : List (PathInfo floats))
      → NotAt addr ps
      → NotAt addr qs
      → NotAt addr (ps ++ qs)
  NotAt-append addr [] qs h k = k
  NotAt-append addr (p ∷ ps) qs h k = (h.0, NotAt-append addr ps qs h.1 k)

  Distinct-snoc :
      (ps : List (PathInfo floats)) (q : PathInfo floats)
      → DistinctAddrs ps
      → NotAt q.addr ps
      → DistinctAddrs (ps ++ (q ∷ []))
  Distinct-snoc [] q h k = (tt, tt)
  Distinct-snoc (p ∷ ps) q h k =
      (NotAt-append p.addr ps (q ∷ []) h.0 (λ e. k.0 (sym e), tt), Distinct-snoc ps q h.1 k.1)

  add-IsValid :
      (now addr : ℕ) (is_relay : Bool) (m : PathManager floats)
      → IsValid m
      → IsValid (add_or_update_path floats now addr is_relay m).1
  unfolding add_or_update_path
  add-IsValid now addr is_relay m v = go (position floats addr m.paths) refl
    where
      go :
          (found : Option ℕ)
          → position floats addr m.paths ≡ found
          → IsValid (add_at floats now addr is_relay m found).1
      go (some i) e = v
      go none e = record {
        in_range =
            omega
              (arith, v.in_range, length-append m.paths (new_path floats now addr is_relay ∷ []));
        distinct =
            Distinct-snoc m.paths (new_path floats now addr is_relay) v.distinct
              (position-none addr m.paths e);
      }

  -- What happens to the paths of a peer.
  pub data Event : Type 0 where
    adds : ℕ → ℕ → Bool → Event
    succeeds : ℕ → ℕ → F → Event
    fails : ℕ → ℕ → Event

  abbrev pub event : PathManager floats → Event → PathManager floats
  event m (adds now addr is_relay) = (add_or_update_path floats now addr is_relay m).1
  event m (succeeds now addr rtt_ms) = record_success floats now addr rtt_ms m
  event m (fails now addr) = record_failure floats now addr m

  unfoldable pub run : PathManager floats → List Event → PathManager floats
  run m [] = m
  run m (e ∷ es) = run (event m e) es

  changed-IsValid :
      (f : PathInfo floats → PathInfo floats) (now addr : ℕ) (m : PathManager floats)
      → KeepsAddr f
      → IsValid m
      → IsValid (reevaluate floats now (record m { paths = change_first floats f addr m.paths }))
  changed-IsValid f now addr m keeps v =
      reevaluate-IsValid now _ (omega (arith, v.in_range, change_first-length f addr m.paths))
        (change_first-Distinct f addr m.paths keeps v.distinct)

  event-IsValid : (m : PathManager floats) (e : Event) → IsValid m → IsValid (event m e)
  unfolding record_success record_failure update_rtt
  event-IsValid m (adds now addr is_relay) v = add-IsValid now addr is_relay m v
  event-IsValid m (succeeds now addr rtt_ms) v = changed-IsValid _ now addr m (λ p. refl) v
  event-IsValid m (fails now addr) v = changed-IsValid _ now addr m (λ p. refl) v

  run-IsValid : (m : PathManager floats) (es : List Event) → IsValid m → IsValid (run m es)
  unfolding run
  run-IsValid m [] v = v
  run-IsValid m (e ∷ es) v = run-IsValid (event m e) es (event-IsValid m e v)

  -- From a new manager, after any additions, successes and failures: no address is listed twice,
  -- and the active index is in range, so that `active_addr` and `is_active_relay` return.
  pub run-new :
      (start relay_addr : ℕ) (es : List Event)
      → let m = run (new floats start relay_addr) es in
        DistinctAddrs m.paths
        × ((p : PathInfo floats) × (active_addr floats m ≡ some p.addr)
            × (is_active_relay floats m ≡ some p.is_relay))
  unfolding new active_addr is_active_relay
  run-new start relay_addr es =
      let v =
        run-IsValid (new floats start relay_addr) es
          (record { in_range = omega arith; distinct = (tt, tt) }) in
      let (p, e) = get-lt _ _ v.in_range in
      (v.distinct, (p, ap (addr_of floats) e, ap (relay_of floats) e))
