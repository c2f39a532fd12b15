-- ===== src/Mesh/Call.antt =====
-- The choice of a node and the call of an action on it (packages/mesh/src/call.ts). The numbers of
-- JavaScript are a parameter: `number_of` tells a metadata value that is one, `lt` is `<` on them and
-- `half` is 0.5. The local invocation, the remote dispatcher and the random choice of an index are
-- parameters. They may change the state, as other code does while the call waits.
mod Candidates
mod Targets
mod RoundRobin
mod Load
mod Tests
use chimpbase.Prelude.Maps.{includes}
use chimpbase.Prelude.{or_else}
use chimpbase.Prelude.{
  ℕ, zero, suc, ◌+◌, ◌%◌, String, Bool, true, false, not, Option, none, some, List, [], ◌∷◌, ◌++◌,
  map, length, ltb, str_eq, if◌then◌else◌,
}
use chimpbase.Prelude.Result.{Result, ok, err}
use chimpbase.Prelude.Maps.{Map, get_key, set_key}
use chimpbase.Mesh.{NodeRecord, MeshPeerCache, get, filter, find_by_action}

pub data LoadBalanceStrategy : Type 0 where
  local_first : LoadBalanceStrategy
  round_robin : LoadBalanceStrategy
  random : LoadBalanceStrategy
  cpu : LoadBalanceStrategy

pub data PickResult (Value : Type 0) : Type 0 where
  local : String → PickResult Value
  remote : NodeRecord Value → PickResult Value

pub data MeshError : Type 0 where
  no_available_node : String → MeshError
  timeout : String → String → ℕ → MeshError
  call_error : String → Option String → String → MeshError
  thrown : String → MeshError

-- What the dispatcher reads and changes: the cache, the module's counters, and the time.
pub record MeshState (Value : Type 0) : Type 0 where
  pub peers : MeshPeerCache Value
  pub round_robin_counters : Map ℕ
  pub now : ℕ

-- An infinite timeout is none.
pub record CallResolverOptions : Type 0 where
  pub default_retries : ℕ
  pub default_strategy : LoadBalanceStrategy
  pub default_timeout_ms : Option ℕ
  pub local_action_names : List String
  pub local_node_id : String
  pub offline_after_ms : ℕ

-- A promise: it settles after some milliseconds, or never.
pub data Reply (A : Type 0) : Type 0 where
  after : ℕ → Result MeshError A → Reply A
  never : Reply A

pub record CallOptions (Value A : Type 0) : Type 0 where
  pub fallback : Option (MeshError → MeshState Value → Reply A × MeshState Value)
  pub node_id : Option String
  pub retry : Option (ℕ × Option ℕ)
  pub strategy : Option LoadBalanceStrategy
  pub timeout_ms : Option (Option ℕ)

unfoldable pub get_at : {A : Type 0} → List A → ℕ → Option A
get_at [] i = none
get_at (x ∷ xs) zero = some x
get_at (x ∷ xs) (suc i) = get_at xs i

-- An empty id is falsy, so it pins nothing.
abbrev pub pinned_id : Option String → Option String
pinned_id none = none
pinned_id (some id) = if str_eq id "" then none else some id

-- `Promise.race` with the timer. Of two that are due at the same time the reply is first, since it
-- was started first.
abbrev pub with_timeout : {A : Type 0} → Option ℕ → MeshError → Reply A → Reply A
with_timeout none e reply = reply
with_timeout (some zero) e reply = reply
with_timeout (some (suc t)) e never = after (suc t) (err e)
with_timeout (some (suc t)) e (after took r) =
    if ltb (suc t) took then after (suc t) (err e) else after took r

module _ {Value : Type 0} where
  -- The peers that serve the action, without the node itself, and the cache after the look.
  unfoldable pub remote_peers :
      CallResolverOptions → String → MeshState Value → List (NodeRecord Value) × MeshState Value
  unfolding find_by_action filter
  remote_peers options action_name s =
      let (found, peers') = find_by_action options.offline_after_ms s.now action_name s.peers in
      (
        filter (λ peer. not (str_eq peer.node_id options.local_node_id)) found,
        record s { peers = peers' },
      )

  unfoldable pub candidates :
      CallResolverOptions → String → List (NodeRecord Value) → List (PickResult Value)
  unfolding includes
  candidates options action_name peers =
      (if includes action_name options.local_action_names
        then local options.local_node_id ∷ []
        else [])
      ++ map remote peers

  unfoldable pub pick_local_first :
      CallResolverOptions → String → List (NodeRecord Value) → Option (PickResult Value)
  unfolding includes
  pick_local_first options action_name peers =
      if includes action_name options.local_action_names
      then some (local options.local_node_id)
      else elim peers [ [] ↦ none | peer ∷ others ↦ some (remote peer) ]

  unfoldable pub pick_pinned :
      CallResolverOptions → String → String → MeshState Value → Option (PickResult Value)
  unfolding includes get
  pick_pinned options action_name pinned s =
      if str_eq pinned options.local_node_id
      then (if includes action_name options.local_action_names
          then some (local options.local_node_id)
          else none)
      else elim (get pinned s.peers) [ none ↦ none | some peer ↦ some (remote peer) ]

  -- The counter is advanced before it is read.
  unfoldable pub pick_round_robin :
      String
      → PickResult Value
      → List (PickResult Value)
      → MeshState Value
      → Option (PickResult Value) × MeshState Value
  unfolding get_key set_key get_at
  pick_round_robin action_name c cs s =
      let counter = or_else (get_key action_name s.round_robin_counters) 0 + 1 in
      (
        get_at (c ∷ cs) (counter % length (c ∷ cs)),
        record s { round_robin_counters = set_key action_name counter s.round_robin_counters },
      )

module _ {Value Number : Type 0} (number_of : Value → Option Number) (lt : Number → Number → Bool)
    (half : Number) (random_index : ℕ → MeshState Value → ℕ) where
  unfoldable pub load_of : PickResult Value → Number
  unfolding get_key
  load_of (local node_id) = half
  load_of (remote peer) = elim (get_key "cpuLoad" peer.metadata) [
    | none ↦ half
    | some value ↦ or_else (number_of value) half
  ]

  -- The `reduce` of the cpu strategy.
  unfoldable pub least_loaded : PickResult Value → List (PickResult Value) → PickResult Value
  unfolding load_of
  least_loaded best [] = best
  least_loaded best (current ∷ rest) =
      least_loaded (if lt (load_of current) (load_of best) then current else best) rest

  unfoldable pub pick_among :
      LoadBalanceStrategy
      → String
      → List (PickResult Value)
      → MeshState Value
      → Option (PickResult Value) × MeshState Value
  unfolding pick_round_robin least_loaded get_at
  pick_among strategy action_name [] s = (none, s)
  pick_among random action_name (c ∷ cs) s = (get_at (c ∷ cs) (random_index (length (c ∷ cs)) s), s)
  pick_among round_robin action_name (c ∷ cs) s = pick_round_robin action_name c cs s
  pick_among cpu action_name (c ∷ cs) s = (some (least_loaded c cs), s)
  pick_among local_first action_name (c ∷ cs) s = (some c, s)

  abbrev pub pick_unpinned :
      CallResolverOptions
      → LoadBalanceStrategy
      → String
      → List (NodeRecord Value)
      → MeshState Value
      → Option (PickResult Value) × MeshState Value
  pick_unpinned options local_first action_name peers s =
      (pick_local_first options action_name peers, s)
  pick_unpinned options random action_name peers s =
      pick_among random action_name (candidates options action_name peers) s
  pick_unpinned options round_robin action_name peers s =
      pick_among round_robin action_name (candidates options action_name peers) s
  pick_unpinned options cpu action_name peers s =
      pick_among cpu action_name (candidates options action_name peers) s

  unfoldable pub pick_target :
      CallResolverOptions
      → String
      → Option String
      → LoadBalanceStrategy
      → MeshState Value
      → Option (PickResult Value) × MeshState Value
  unfolding remote_peers pick_pinned pick_local_first pick_among candidates
  pick_target options action_name pinned strategy s = elim (pinned_id pinned) [
    | some id ↦ (pick_pinned options action_name id s, s)
    | none ↦
        let (peers, s') = remote_peers options action_name s in
        pick_unpinned options strategy action_name peers s'
  ]
