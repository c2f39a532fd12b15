-- ===== src/Mesh/Call/RoundRobin.antt =====
-- The turns of the round-robin strategy.
use chimpbase.Prelude.{or_else}
use chimpbase.Prelude.{
  ℕ, zero, suc, ◌+◌, ◌-◌, ◌*◌, ◌/◌, ◌%◌, ◌<◌, ◌≡◌, refl, sym, ap, ◌∙◌, inl, inr, String, Bool,
  false, Option, none, some, List, [], ◌∷◌, length, In, All, Bool-cases, leb, leb→le, arith,
}
use chimpbase.Prelude.Maps.{get_key, set_key, get-set_same}
use native.Mathlib.Nat.{
  mod-lt, mod-eq_of_lt, mul-add-mod_self_left, mul_comm, mul-suc, mod-add-div',
}
use chimpbase.Mesh.{MeshPeerCache, is_stale, sweep, all, find_by_action}
use chimpbase.Mesh.Call.{
  round_robin, PickResult, MeshState, CallResolverOptions, get_at, pinned_id, remote_peers,
  candidates, pick_round_robin, pick_among, pick_target,
}
use chimpbase.Mesh.Call.Candidates.{IsTarget, candidates-IsTarget, records}

residue : (a n m i : ℕ) → a ≡ n * m + i → i < n → a % n ≡ i
residue a n m i e h = rw e (mul-add-mod_self_left n m i ∙ mod-eq_of_lt h)

-- Some turn within `n` turns falls on `i`.
turn :
    (x n i q r : ℕ) → r + q * n ≡ x + 1 → r < n → i < n → (k : ℕ) × (k < n) × ((x + k + 1) % n ≡ i)
turn x n i q r e below h =
    let same = mul_comm n q in
    elim (Bool-cases (leb r i)) [
      | inl le ↦
          let le' = leb→le r i le in
          (i - r, omega arith, residue (x + (i - r) + 1) n q i (omega arith) h)
      | inr gt ↦
          let gt' : i < r = ground arith in
          let more = mul-suc n q in
          (n - r + i, omega arith, residue (x + (n - r + i) + 1) n (suc q) i (omega arith) h)
    ]

In-get_at :
    {A : Type 0} (x : A) (xs : List A)
    → In x xs
    → (i : ℕ) × (i < length xs) × (get_at xs i ≡ some x)
unfolding get_at
In-get_at x [] there = absurd there
In-get_at x (y ∷ xs) (inl e) = (0, omega arith, ap some (sym e))
In-get_at x (y ∷ xs) (inr there) =
    let (i, h, e) = In-get_at x xs there in (suc i, omega (arith, h), e)

sweep_fresh :
    {Value : Type 0} (offline now : ℕ) (entries peers : MeshPeerCache Value)
    → All (λ node. is_stale offline now node ≡ false) (records entries)
    → sweep offline now entries peers ≡ (records entries, peers)
unfolding sweep
sweep_fresh offline now [] peers fresh = refl
sweep_fresh offline now ((j, node) ∷ entries) peers (here, later) =
    rw (here, sweep_fresh offline now entries peers later) refl

module _ {Value : Type 0} (options : CallResolverOptions) (action_name : String) where
  abbrev pub AllFresh : MeshState Value → Type 0
  AllFresh s = All (λ node. is_stale options.offline_after_ms s.now node ≡ false) (records s.peers)

  abbrev pub candidates_at : MeshState Value → List (PickResult Value)
  candidates_at s = candidates options action_name (remote_peers options action_name s).0

  abbrev counter_at : MeshState Value → ℕ
  counter_at s = or_else (get_key action_name s.round_robin_counters) 0

  unmoved : (s : MeshState Value) → AllFresh s → (remote_peers options action_name s).1 ≡ s
  unfolding remote_peers find_by_action all
  unmoved s fresh = rw (sweep_fresh options.offline_after_ms s.now s.peers s.peers fresh) refl

module _ {Value Number : Type 0} (number_of : Value → Option Number) (lt : Number → Number → Bool)
    (half : Number) (random_index : ℕ → MeshState Value → ℕ) (options : CallResolverOptions)
    (action_name : String) (pinned : Option String) where
  abbrev picks : MeshState Value → Option (PickResult Value) × MeshState Value
  picks s = pick_target number_of lt half random_index options action_name pinned round_robin s

  -- The target of a call that comes after `k` other calls of the action.
  abbrev pub nth_pick : ℕ → MeshState Value → Option (PickResult Value)
  nth_pick zero s = (picks s).0
  nth_pick (suc k) s = nth_pick k (picks s).1

  abbrev next_state : MeshState Value → MeshState Value
  next_state s = record s {
    round_robin_counters =
        set_key action_name (counter_at options action_name s + 1) s.round_robin_counters;
  }

  picks_lem :
      (s : MeshState Value)
      → pinned_id pinned ≡ none
      → AllFresh options action_name s
      → 0 < length (candidates_at options action_name s)
      → picks s ≡ (
        get_at
            (candidates_at options action_name s)
            ((counter_at options action_name s + 1) % length (candidates_at options action_name s)),
        next_state s,
      )
  unfolding pick_target pick_among pick_round_robin
  picks_lem s e fresh some_there =
      rw (e, pick_target)
        (rw (unmoved options action_name s fresh)
          (among (candidates_at options action_name s) some_there))
    where
      among :
          (cs : List (PickResult Value))
          → 0 < length cs
          → pick_among number_of lt half random_index round_robin action_name cs s
            ≡ (get_at cs ((counter_at options action_name s + 1) % length cs), next_state s)
      among [] h = absurd (omega (arith, h))
      among (c ∷ cs) h = refl

  nth_pick_lem :
      (k : ℕ) (s : MeshState Value)
      → pinned_id pinned ≡ none
      → AllFresh options action_name s
      → 0 < length (candidates_at options action_name s)
      → nth_pick k s
        ≡ get_at (candidates_at options action_name s) (
            (counter_at options action_name s + k + 1)
            % length (candidates_at options action_name s))
  unfolding remote_peers
  nth_pick_lem zero s e fresh some_there =
      let cs = candidates_at options action_name s in
      ap (λ (p : Option (PickResult Value) × MeshState Value). p.0) (picks_lem s e fresh some_there)
      ∙ ap (λ m. get_at cs (m % length cs)) (omega arith)
  nth_pick_lem (suc k) s e fresh some_there =
      let cs = candidates_at options action_name s in
      let counter = counter_at options action_name s in
      let next : counter_at options action_name (next_state s) ≡ counter + 1 =
        ap (λ o. or_else o 0) (get-set_same action_name (counter + 1) s.round_robin_counters) in
      ap (λ (p : Option (PickResult Value) × MeshState Value). nth_pick k p.1)
        (picks_lem s e fresh some_there)
      ∙ (nth_pick_lem k (next_state s) e fresh some_there
          ∙ ap (λ m. get_at cs (m % length cs)) (omega (arith, next)))

  -- With the strategy round-robin, no pinned node and no stale record in the cache, every node
  -- that may be called is the target of one of as many consecutive calls of the action as there
  -- are candidates.
  pub nth_pick-reaches :
      (s : MeshState Value) (target : PickResult Value)
      → pinned_id pinned ≡ none
      → AllFresh options action_name s
      → IsTarget options action_name s target
      → (k : ℕ) × (k < length (candidates_at options action_name s)) × (nth_pick k s ≡ some target)
  nth_pick-reaches s target e fresh may =
      let cs = candidates_at options action_name s in
      let (i, below, there) =
        In-get_at target cs ((candidates-IsTarget options action_name s target).1 may) in
      let counter = counter_at options action_name s in
      let positive : 0 < length cs = omega (arith, below) in
      let (k, early, falls) =
        turn counter (length cs) i ((counter + 1) / length cs) ((counter + 1) % length cs)
          (mod-add-div' (counter + 1) (length cs)) (mod-lt (counter + 1) {m = length cs} positive)
          below in
      (k, early, nth_pick_lem k s e fresh positive ∙ (ap (get_at cs) falls ∙ there))
