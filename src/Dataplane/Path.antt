-- ===== src/Dataplane/Path.antt =====
-- crates/r2n-dataplane/src/path.rs: the addresses at which a peer was seen, and the one in use.
-- Addresses are numbers and instants nanoseconds. The 32-bit floats are the parameter `Floats`.
pub mod Choice
pub mod Events
pub mod Tests
use r2n.Common.{
  ℕ, zero, suc, ◌+◌, ◌-◌, ◌*◌, ◌<◌, ◌≡◌, Bool, true, false, ◌&&◌, Option, none, some, List, [], ◌∷◌,
  ◌++◌, length, ltb, ◌==◌, if◌then◌else◌,
}

-- The operations on f32 that the code uses, and the constants.
pub record Floats : Type 1 where
  pub F : Type 0
  pub add : F → F → F
  pub sub : F → F → F
  pub mul : F → F → F
  pub abs : F → F
  pub lt : F → F → Bool
  pub max_value : F
  -- A literal of the code: `literal n d` is n / d.
  pub literal : ℕ → ℕ → F
  pub lt_irrefl : (a : F) → lt a a ≡ false
  pub lt_trans : (a b c : F) → lt a b ≡ true → lt b c ≡ true → lt a c ≡ true

abbrev pub five_secs : ℕ
five_secs = 5_000_000_000

module _ (floats : Floats) where
  open floats use {F, add, sub, mul, abs, lt, max_value, literal}

  pub record PathInfo : Type 0 where
    pub addr : ℕ
    pub is_relay : Bool
    pub rtt_ewma : F
    pub jitter_ewma : F
    pub loss_ewma : F
    pub last_success : ℕ

  abbrev pub new_path : ℕ → ℕ → Bool → PathInfo
  new_path now addr is_relay = record {
    addr = addr;
    is_relay = is_relay;
    rtt_ewma = if is_relay then literal 100 1 else literal 200 1;
    jitter_ewma = literal 0 1;
    loss_ewma = literal 0 1;
    last_success = now;
  }

  pub score : PathInfo → F
  score p =
      let relay_penalty = if p.is_relay then literal 80 1 else literal 0 1 in
      add
        (add (add p.rtt_ewma (mul p.jitter_ewma (literal 2 1))) (mul p.loss_ewma (literal 1000 1)))
        relay_penalty

  pub update_rtt : ℕ → F → PathInfo → PathInfo
  update_rtt now rtt_ms p =
      let alpha = literal 125 1000 in
      let diff = sub rtt_ms p.rtt_ewma in
      record p {
        rtt_ewma = add p.rtt_ewma (mul alpha diff);
        jitter_ewma = add p.jitter_ewma (mul alpha (sub (abs diff) p.jitter_ewma));
        last_success = now;
      }

  -- The loss average after an outcome that counts `lost`: 0.0 or 1.0.
  abbrev pub weigh_loss : F → PathInfo → PathInfo
  weigh_loss lost p =
      let alpha = literal 1 10 in
      record p { loss_ewma = add (mul p.loss_ewma (sub (literal 1 1) alpha)) (mul alpha lost) }

  pub record PathManager : Type 0 where
    pub paths : List PathInfo
    pub active_index : ℕ

  unfoldable pub new : ℕ → ℕ → PathManager
  new now relay_addr = record { paths = new_path now relay_addr true ∷ []; active_index = 0 }

  unfoldable pub get : List PathInfo → ℕ → Option PathInfo
  get [] i = none
  get (p ∷ ps) zero = some p
  get (p ∷ ps) (suc i) = get ps i

  abbrev pub addr_of : Option PathInfo → Option ℕ
  addr_of none = none
  addr_of (some p) = some p.addr

  abbrev pub relay_of : Option PathInfo → Option Bool
  relay_of none = none
  relay_of (some p) = some p.is_relay

  -- `none` is the panic of an index out of range.
  unfoldable pub active_addr : PathManager → Option ℕ
  active_addr m = addr_of (get m.paths m.active_index)

  pub is_active_relay : PathManager → Option Bool
  is_active_relay m = relay_of (get m.paths m.active_index)

  abbrev pub after_first : Option ℕ → Option ℕ
  after_first none = none
  after_first (some i) = some (suc i)

  -- `iter().position(..)`.
  pub position : ℕ → List PathInfo → Option ℕ
  position addr [] = none
  position addr (p ∷ ps) = if p.addr == addr then some 0 else after_first (position addr ps)

  abbrev pub add_at : ℕ → ℕ → Bool → PathManager → Option ℕ → ℕ × PathManager
  add_at now addr is_relay m (some pos) = (pos, m)
  add_at now addr is_relay m none =
      (length m.paths, record m { paths = m.paths ++ (new_path now addr is_relay ∷ []) })

  pub add_or_update_path : ℕ → ℕ → Bool → PathManager → ℕ × PathManager
  add_or_update_path now addr is_relay m = add_at now addr is_relay m (position addr m.paths)

  -- `iter_mut().find(..)`, with what is done to the path that is found.
  pub change_first : (PathInfo → PathInfo) → ℕ → List PathInfo → List PathInfo
  change_first f addr [] = []
  change_first f addr (p ∷ ps) =
      let rest = change_first f addr ps in if p.addr == addr then f p ∷ ps else p ∷ rest

  -- The loop of `reevaluate` from index `i` on, with the best index and score so far.
  pub best : ℕ → ℕ → List PathInfo → ℕ → F → ℕ × F
  best now i [] best_idx best_score = (best_idx, best_score)
  best now i (p ∷ ps) best_idx best_score =
      let taken = best now (suc i) ps i (score p) in
      let kept = best now (suc i) ps best_idx best_score in
      if ltb (now - p.last_success) five_secs && lt (score p) best_score then taken else kept

  abbrev pub reevaluate_paths : ℕ → List PathInfo → ℕ → ℕ
  reevaluate_paths now [] active_index = active_index
  reevaluate_paths now (p ∷ ps) active_index = (best now 0 (p ∷ ps) 0 max_value).0

  pub reevaluate : ℕ → PathManager → PathManager
  reevaluate now m = record m { active_index = reevaluate_paths now m.paths m.active_index }

  pub record_success : ℕ → ℕ → F → PathManager → PathManager
  record_success now addr rtt_ms m = reevaluate now (record m {
    paths = change_first (λ p. weigh_loss (literal 0 1) (update_rtt now rtt_ms p)) addr m.paths;
  })

  pub record_failure : ℕ → ℕ → PathManager → PathManager
  record_failure now addr m =
      reevaluate now
        (record m { paths = change_first (λ p. weigh_loss (literal 1 1) p) addr m.paths })
