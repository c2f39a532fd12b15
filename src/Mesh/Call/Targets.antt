-- ===== src/Mesh/Call/Targets.antt =====
-- Which node a call is sent to.
use chimpbase.Prelude.Maps.{includes}
use chimpbase.Prelude.{or_else}
use chimpbase.Prelude.{
  ℕ, zero, suc, ◌+◌, ◌%◌, ◌<◌, ◌≡◌, ◌↔◌, refl, sym, subst, inl, inr, String, Bool, true, false,
  Option, none, some, List, [], ◌∷◌, ◌++◌, map, length, In, if◌then◌else◌, arith,
}
use chimpbase.Prelude.Maps.{get_key}
use chimpbase.Mesh.{NodeRecord}
use chimpbase.Mesh.Call.{
  LoadBalanceStrategy, local_first, round_robin, random, cpu, PickResult, local, remote, MeshState,
  CallResolverOptions, get_at, pinned_id, remote_peers, candidates, pick_local_first,
  pick_round_robin, least_loaded, pick_among, pick_unpinned, pick_target,
}
use chimpbase.Mesh.Call.{load_of}
use native.Mathlib.Nat.{mod-lt}
use chimpbase.Mesh.Call.Candidates.{IsTarget, candidates-IsTarget}

pub get_at-In :
    {A : Type 0} (xs : List A) (i : ℕ) → i < length xs → (x : A) × (get_at xs i ≡ some x) × In x xs
unfolding get_at
get_at-In [] i h = absurd (omega (arith, h))
get_at-In (x ∷ xs) zero h = (x, refl, inl refl)
get_at-In (x ∷ xs) (suc i) h =
    let (y, e, there) = get_at-In xs i (omega (arith, h)) in (y, e, inr there)

module _ {Value : Type 0} where
  -- Nothing, and then no target may be picked; or a target that may be.
  abbrev pub IsPick :
      CallResolverOptions → String → MeshState Value → Option (PickResult Value) → Type 0
  IsPick options action_name s none =
      (target : PickResult Value) → ¬ IsTarget options action_name s target
  IsPick options action_name s (some target) = IsTarget options action_name s target

  -- The first candidate among two is one of them.
  kept :
      (b : Bool) (best c target : PickResult Value) (rest : List (PickResult Value))
      → In target ((if b then c else best) ∷ rest)
      → In target (best ∷ c ∷ rest)
  kept true best c target rest i = inr i
  kept false best c target rest (inl e) = inl e
  kept false best c target rest (inr i) = inr (inr i)

  -- A pick from a list: nothing from the empty list, and otherwise a member.
  abbrev IsFrom : List (PickResult Value) → Option (PickResult Value) → Type 0
  IsFrom [] picked = picked ≡ none
  IsFrom (c ∷ cs) picked = (target : PickResult Value) × (picked ≡ some target) × In target (c ∷ cs)

-- A call that pins no node picks among the candidates.
pub pick_target_unpinned :
    {Value Number : Type 0} (number_of : Value → Option Number) (lt : Number → Number → Bool)
    (half : Number) (random_index : ℕ → MeshState Value → ℕ) (options : CallResolverOptions)
    (action_name : String) (pinned : Option String) (strategy : LoadBalanceStrategy)
    (s : MeshState Value)
    → pinned_id pinned ≡ none
    → pick_target number_of lt half random_index options action_name pinned strategy s
      ≡ pick_unpinned number_of lt half random_index options strategy action_name
          (remote_peers options action_name s).0
          (remote_peers options action_name s).1
unfolding pick_target
pick_target_unpinned number_of lt half random_index options action_name pinned strategy s e =
    rw (e, pick_target) refl

module _ {Value Number : Type 0} (number_of : Value → Option Number) (lt : Number → Number → Bool)
    (half : Number) (random_index : ℕ → MeshState Value → ℕ)
    (in_range : (n : ℕ) (s : MeshState Value) → 0 < n → random_index n s < n) where
  least_loaded-In :
      (best : PickResult Value) (rest : List (PickResult Value))
      → In (least_loaded number_of lt half random_index best rest) (best ∷ rest)
  unfolding least_loaded
  least_loaded-In best [] = inl refl
  least_loaded-In best (c ∷ rest) =
      let swap =
        lt (load_of number_of lt half random_index c)
          (load_of number_of lt half random_index best) in
      kept swap best c (least_loaded number_of lt half random_index (if swap then c else best) rest)
        rest (least_loaded-In (if swap then c else best) rest)

  pick_among-IsFrom :
      (strategy : LoadBalanceStrategy) (action_name : String) (cs : List (PickResult Value))
      (s : MeshState Value)
      → IsFrom cs (pick_among number_of lt half random_index strategy action_name cs s).0
  unfolding pick_among pick_round_robin
  pick_among-IsFrom strategy action_name [] s = refl
  pick_among-IsFrom local_first action_name (c ∷ cs) s = (c, refl, inl refl)
  pick_among-IsFrom random action_name (c ∷ cs) s =
      get_at-In (c ∷ cs) (random_index (length (c ∷ cs)) s)
        (in_range (length (c ∷ cs)) s (omega arith))
  pick_among-IsFrom cpu action_name (c ∷ cs) s =
      (least_loaded number_of lt half random_index c cs, refl, least_loaded-In c cs)
  pick_among-IsFrom round_robin action_name (c ∷ cs) s =
      let counter = or_else (get_key action_name s.round_robin_counters) 0 + 1 in
      get_at-In (c ∷ cs) (counter % length (c ∷ cs))
        (mod-lt counter {m = length (c ∷ cs)} (omega arith))

  -- A member of the list of candidates, if there is one, is a pick.
  from-IsPick :
      (options : CallResolverOptions) (action_name : String) (s : MeshState Value)
      (cs : List (PickResult Value)) (picked : Option (PickResult Value))
      → ((target : PickResult Value) → In target cs ↔ IsTarget options action_name s target)
      → IsFrom cs picked
      → IsPick options action_name s picked
  from-IsPick options action_name s [] picked members e =
      subst (IsPick options action_name s) (sym e) (λ target c. (members target).1 c)
  from-IsPick options action_name s (c ∷ cs) picked members (target, e, i) =
      subst (IsPick options action_name s) (sym e) ((members target).0 i)

  -- The local node first is the first of the candidates.
  local_first-IsFrom :
      (options : CallResolverOptions) (action_name : String) (peers : List (NodeRecord Value))
      → IsFrom (candidates options action_name peers) (pick_local_first options action_name peers)
  unfolding candidates pick_local_first
  local_first-IsFrom options action_name peers =
      go (includes action_name options.local_action_names) options.local_node_id peers
    where
      go :
          (b : Bool) (id : String) (peers : List (NodeRecord Value))
          → IsFrom ((if b then local id ∷ [] else []) ++ map remote peers) (
              if b
              then some (local id)
              else elim peers [ [] ↦ none | peer ∷ others ↦ some (remote peer) ])
      go true id peers = (local id, refl, inl refl)
      go false id [] = refl
      go false id (peer ∷ peers) = (remote peer, refl, inl refl)

  pick_unpinned-IsFrom :
      (options : CallResolverOptions) (strategy : LoadBalanceStrategy) (action_name : String)
      (peers : List (NodeRecord Value)) (s : MeshState Value)
      → IsFrom
          (candidates options action_name peers)
          (pick_unpinned number_of lt half random_index options strategy action_name peers s).0
  pick_unpinned-IsFrom options local_first action_name peers s =
      local_first-IsFrom options action_name peers
  pick_unpinned-IsFrom options random action_name peers s =
      pick_among-IsFrom random action_name (candidates options action_name peers) s
  pick_unpinned-IsFrom options round_robin action_name peers s =
      pick_among-IsFrom round_robin action_name (candidates options action_name peers) s
  pick_unpinned-IsFrom options cpu action_name peers s =
      pick_among-IsFrom cpu action_name (candidates options action_name peers) s

  -- If no node is pinned and the random index is in range, pickTarget returns nothing exactly when
  -- no node may be called, and otherwise a node that may be: this one if it has the action, or
  -- another that the cache holds, whose last heartbeat is recent enough and which serves the
  -- action.
  pub pick_target-IsPick :
      (options : CallResolverOptions) (action_name : String) (pinned : Option String)
      (strategy : LoadBalanceStrategy) (s : MeshState Value)
      → pinned_id pinned ≡ none
      → IsPick options action_name s
          (pick_target number_of lt half random_index options action_name pinned strategy s).0
  pick_target-IsPick options action_name pinned strategy s e =
      let (peers, s') = remote_peers options action_name s in
      rw
        (pick_target_unpinned number_of lt half random_index options action_name pinned strategy s
          e)
        (from-IsPick options action_name s (candidates options action_name peers)
          (pick_unpinned number_of lt half random_index options strategy action_name peers s').0
          (candidates-IsTarget options action_name s)
          (pick_unpinned-IsFrom options strategy action_name peers s'))
