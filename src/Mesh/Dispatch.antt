-- ===== src/Mesh/Dispatch.antt =====
-- `createCallDispatcher` (packages/mesh/src/call.ts): a call with its retries, its timeout and its
-- fallback, and the middleware around it. The context of a call is not modelled. The local invocation
-- and the remote dispatcher are parameters, which may change the state while the call waits.
mod Retries
mod Deadline
mod Tests
use chimpbase.Prelude.{or_else}
use chimpbase.Prelude.{ℕ, zero, suc, ◌+◌, String, concat, Bool, Option, none, some, List, [], ◌∷◌}
use chimpbase.Prelude.Result.{Result, ok, err}
use chimpbase.Mesh.{NodeRecord}
use chimpbase.Mesh.Call.{
  LoadBalanceStrategy, PickResult, local, remote, MeshError, no_available_node, timeout, call_error,
  MeshState, CallResolverOptions, Reply, after, never, CallOptions, pick_target, with_timeout,
}

pub data CallArgs (Value : Type 0) : Type 0 where
  undefined : CallArgs Value
  array : List Value → CallArgs Value
  value : Value → CallArgs Value

unfoldable pub to_invocation_args : {Value : Type 0} → CallArgs Value → List Value
to_invocation_args undefined = []
to_invocation_args (array args) = args
to_invocation_args (value arg) = arg ∷ []

abbrev pub advance : {Value : Type 0} → ℕ → MeshState Value → MeshState Value
advance ms s = record s { now = s.now + ms }

-- A reply that comes some milliseconds later.
abbrev pub delayed : {A : Type 0} → ℕ → Reply A → Reply A
delayed ms never = never
delayed ms (after t r) = after (ms + t) r

abbrev pub deadline : Option ℕ → ℕ → Option ℕ
deadline none now = none
deadline (some timeout_ms) now = some (now + timeout_ms)

-- `MeshCallFn`, with the state that it starts in and the state that it leaves.
abbrev pub MeshCallFn : Type 0 → Type 0 → Type 0
MeshCallFn Value A =
    String → CallArgs Value → CallOptions Value A → MeshState Value → Reply A × MeshState Value

abbrev pub RemoteDispatcher : Type 0 → Type 0 → Type 0
RemoteDispatcher Value A =
    String
    → CallArgs Value
    → Option ℕ
    → NodeRecord Value
    → MeshState Value
    → Reply A × MeshState Value

module _ {Value A : Type 0} where
  abbrev pub raced : Option ℕ → MeshError → Reply A × MeshState Value → Reply A × MeshState Value
  raced timeout_ms e (reply, s) = (with_timeout timeout_ms e reply, s)

  abbrev pub then_delayed : ℕ → Reply A × MeshState Value → Reply A × MeshState Value
  then_delayed ms (reply, s) = (delayed ms reply, s)

  -- What follows an attempt: its value, or `again` after its error and the time that it took.
  abbrev pub on_error :
      (ℕ → MeshError → MeshState Value → Reply A × MeshState Value)
      → Reply A × MeshState Value
      → Reply A × MeshState Value
  on_error again (after t (err e), s) = again t e (advance t s)
  on_error again (after t (ok a), s) = (after t (ok a), advance t s)
  on_error again (never, s) = (never, s)

  abbrev pub fall_back :
      Option (MeshError → MeshState Value → Reply A × MeshState Value)
      → Reply A × MeshState Value
      → Reply A × MeshState Value
  fall_back (some fallback) (after t (err e), s) = then_delayed t (fallback e s)
  fall_back none (after t (err e), s) = (after t (err e), s)
  fall_back f (after t (ok a), s) = (after t (ok a), s)
  fall_back f (never, s) = (never, s)

  abbrev pub retry_attempts : CallResolverOptions → CallOptions Value A → ℕ
  retry_attempts options call_opts = elim call_opts.retry [
    | none ↦ options.default_retries
    | some (attempts, delay_ms) ↦ attempts
  ]

  abbrev pub retry_delay_ms : CallOptions Value A → ℕ
  retry_delay_ms call_opts = elim call_opts.retry [
    | none ↦ 100
    | some (attempts, delay_ms) ↦ or_else delay_ms 100
  ]

module _ {Value Number A : Type 0} (number_of : Value → Option Number) (lt : Number → Number → Bool)
    (half : Number) (random_index : ℕ → MeshState Value → ℕ)
    (invoke_local : String → List Value → MeshState Value → Reply A × MeshState Value)
    (remote_dispatcher : Option (RemoteDispatcher Value A)) (options : CallResolverOptions) where
  unfoldable pub invoke_target :
      String
      → CallArgs Value
      → Option ℕ
      → Option (PickResult Value)
      → MeshState Value
      → Reply A × MeshState Value
  unfolding to_invocation_args
  invoke_target action_name args timeout_ms none s =
      (after 0 (err (no_available_node action_name)), s)
  invoke_target action_name args timeout_ms (some (local node_id)) s =
      raced timeout_ms (timeout action_name options.local_node_id (or_else timeout_ms 0))
        (invoke_local action_name (to_invocation_args args) s)
  invoke_target action_name args timeout_ms (some (remote peer)) s = elim remote_dispatcher [
    | none ↦ (
      after 0 (
          err (
            call_error action_name (some peer.node_id)
              (concat "remote dispatch is disabled for action: " action_name))),
      s,
    )
    | some dispatch ↦
        raced timeout_ms (timeout action_name peer.node_id (or_else timeout_ms 0))
          (dispatch action_name args (deadline timeout_ms s.now) peer s)
  ]

  unfoldable pub attempt :
      String → CallArgs Value → CallOptions Value A → MeshState Value → Reply A × MeshState Value
  unfolding invoke_target pick_target
  attempt action_name args call_opts s =
      let (target, s') =
        pick_target number_of lt half random_index options action_name call_opts.node_id
          (or_else call_opts.strategy options.default_strategy) s in
      invoke_target action_name args (or_else call_opts.timeout_ms options.default_timeout_ms)
        target s'

  -- The loop over the attempts, of which `left` more are allowed after this one.
  unfoldable pub tries :
      String
      → CallArgs Value
      → CallOptions Value A
      → ℕ
      → ℕ
      → MeshState Value
      → Reply A × MeshState Value
  unfolding attempt
  tries action_name args call_opts delay_ms zero s =
      on_error (λ t e s'. (after t (err e), s')) (attempt action_name args call_opts s)
  tries action_name args call_opts delay_ms (suc left) s =
      on_error
        (λ t e s'.
          then_delayed (t + delay_ms)
            (tries action_name args call_opts delay_ms left (advance delay_ms s')))
        (attempt action_name args call_opts s)

  -- The dispatcher's `core`.
  unfoldable pub core : MeshCallFn Value A
  unfolding tries
  core action_name args call_opts s = fall_back call_opts.fallback (
      tries action_name args call_opts (retry_delay_ms call_opts) (retry_attempts options call_opts)
        s)

  -- The first middleware is the outermost.
  unfoldable pub wrapped : List (MeshCallFn Value A → MeshCallFn Value A) → MeshCallFn Value A
  unfolding core
  wrapped [] = core
  wrapped (middleware ∷ rest) = middleware (wrapped rest)
