-- ===== src/Mesh/Dispatch/Deadline.antt =====
-- How long a call can take.
use chimpbase.Prelude.{or_else}
use chimpbase.Prelude.{
  ℕ, zero, suc, ◌+◌, ◌*◌, ◌≤◌, ◌≡◌, refl, String, Bool, Option, none, some, List, inl, inr,
  Bool-cases, Option-cases, ltb, arith,
}
use native.Mathlib.Nat.{suc-mul}
use chimpbase.Prelude.Result.{ok, err}
use chimpbase.Mesh.Call.{
  PickResult, local, remote, MeshError, timeout, MeshState, CallResolverOptions, Reply, after,
  never, CallOptions, with_timeout, pick_target,
}
use chimpbase.Mesh.Dispatch.{
  CallArgs, advance, delayed, RemoteDispatcher, to_invocation_args, invoke_target, attempt,
  then_delayed, on_error, tries, retry_attempts, retry_delay_ms, fall_back, core,
}

abbrev pub SettlesBy : {A : Type 0} → ℕ → Reply A → Type 0
SettlesBy bound never = ⊥
SettlesBy bound (after t r) = t ≤ bound

with_timeout-SettlesBy :
    {A : Type 0} (t : ℕ) (e : MeshError) (reply : Reply A)
    → SettlesBy (suc t) (with_timeout (some (suc t)) e reply)
with_timeout-SettlesBy t e never = omega arith
with_timeout-SettlesBy t e (after took r) = elim (Bool-cases (ltb (suc t) took)) [
  | inl late ↦ rw late (omega arith)
  | inr early ↦ rw early (ground arith)
]

delayed-SettlesBy :
    {A : Type 0} (ms bound bound' : ℕ) (reply : Reply A)
    → ms + bound ≤ bound'
    → SettlesBy bound reply
    → SettlesBy bound' (delayed ms reply)
delayed-SettlesBy ms bound bound' never le h = h
delayed-SettlesBy ms bound bound' (after t r) le h = omega (arith, le, h)

-- The time of one attempt more, with the delay before it.
one_more :
    (m delay_ms left t : ℕ)
    → m ≤ suc t
    → m + delay_ms + (suc left * suc t + left * delay_ms)
      ≤ suc (suc left) * suc t + suc left * delay_ms
one_more m delay_ms left t le =
    let attempts = suc-mul (suc left) (suc t) in
    let delays = suc-mul left delay_ms in omega (arith, le)

module _ {Value Number A : Type 0} (number_of : Value → Option Number) (lt : Number → Number → Bool)
    (half : Number) (random_index : ℕ → MeshState Value → ℕ)
    (invoke_local : String → List Value → MeshState Value → Reply A × MeshState Value)
    (remote_dispatcher : Option (RemoteDispatcher Value A)) (options : CallResolverOptions)
    (action_name : String) (args : CallArgs Value) where
  invoke_target-SettlesBy :
      (t : ℕ) (target : Option (PickResult Value)) (s : MeshState Value)
      → SettlesBy
          (suc t)
          (invoke_target number_of lt half random_index invoke_local remote_dispatcher options
            action_name args
            (some (suc t))
            target
            s).0
  unfolding invoke_target
  invoke_target-SettlesBy t none s = omega arith
  invoke_target-SettlesBy t (some (local id)) s =
      with_timeout-SettlesBy t (timeout action_name options.local_node_id (suc t))
        (invoke_local action_name (to_invocation_args args) s).0
  invoke_target-SettlesBy t (some (remote peer)) s = elim (Option-cases remote_dispatcher) [
    | inl off ↦ rw (off, invoke_target) (omega arith)
    | inr (dispatch, on) ↦
        rw (on, invoke_target)
          (with_timeout-SettlesBy t (timeout action_name peer.node_id (suc t))
            (dispatch action_name args (some (s.now + suc t)) peer s).0)
  ]

  on_error-SettlesBy :
      (limit bound : ℕ) (again : ℕ → MeshError → MeshState Value → Reply A × MeshState Value)
      (r : Reply A × MeshState Value)
      → limit ≤ bound
      → ((t : ℕ) (e : MeshError) (s : MeshState Value)
          → t ≤ limit
          → SettlesBy bound (again t e s).0)
      → SettlesBy limit r.0
      → SettlesBy bound (on_error again r).0
  on_error-SettlesBy limit bound again (never, s) le h settles = settles
  on_error-SettlesBy limit bound again (after t (ok a), s) le h settles = omega (arith, le, settles)
  on_error-SettlesBy limit bound again (after t (err e), s) le h settles =
      h t e (advance t s) settles

  module _ (call_opts : CallOptions Value A) (t : ℕ)
      (finite : or_else call_opts.timeout_ms options.default_timeout_ms ≡ some (suc t)) where
    attempt-SettlesBy :
        (s : MeshState Value)
        → SettlesBy
            (suc t)
            (attempt number_of lt half random_index invoke_local remote_dispatcher options
              action_name args call_opts s).0
    unfolding attempt
    attempt-SettlesBy s =
        rw (finite, attempt)
          (invoke_target-SettlesBy t
            (pick_target number_of lt half random_index options action_name call_opts.node_id
              (or_else call_opts.strategy options.default_strategy) s).0
            (pick_target number_of lt half random_index options action_name call_opts.node_id
              (or_else call_opts.strategy options.default_strategy) s).1)

    tries-SettlesBy :
        (delay_ms left : ℕ) (s : MeshState Value)
        → SettlesBy
            (suc left * suc t + left * delay_ms)
            (tries number_of lt half random_index invoke_local remote_dispatcher options action_name
              args call_opts delay_ms left s).0
    unfolding tries
    tries-SettlesBy delay_ms zero s =
        on_error-SettlesBy (suc t) (suc zero * suc t + zero * delay_ms)
          (λ m e s'. (after m (err e), s'))
          (attempt number_of lt half random_index invoke_local remote_dispatcher options action_name
            args call_opts s)
          (omega arith) (λ m e s' le. omega (arith, le)) (attempt-SettlesBy s)
    tries-SettlesBy delay_ms (suc left) s =
        on_error-SettlesBy (suc t) (suc (suc left) * suc t + suc left * delay_ms)
          (λ m e s'. then_delayed (m + delay_ms) (
            tries number_of lt half random_index invoke_local remote_dispatcher options action_name
              args call_opts delay_ms left (advance delay_ms s')))
          (attempt number_of lt half random_index invoke_local remote_dispatcher options action_name
            args call_opts s)
          (omega (arith, one_more 0 delay_ms left t (omega arith), suc-mul (suc left) (suc t)))
          (λ m e s' le.
            delayed-SettlesBy (m + delay_ms) (suc left * suc t + left * delay_ms)
              (suc (suc left) * suc t + suc left * delay_ms)
              (tries number_of lt half random_index invoke_local remote_dispatcher options
                action_name args call_opts delay_ms left (advance delay_ms s')).0
              (one_more m delay_ms left t le) (tries-SettlesBy delay_ms left (advance delay_ms s')))
          (attempt-SettlesBy s)

    fall_back-SettlesBy :
        (limit extra : ℕ) (f : Option (MeshError → MeshState Value → Reply A × MeshState Value))
        (r : Reply A × MeshState Value)
        → ((g : MeshError → MeshState Value → Reply A × MeshState Value)
            → f ≡ some g
            → (e : MeshError) (s : MeshState Value) → SettlesBy extra (g e s).0)
        → SettlesBy limit r.0
        → SettlesBy (limit + extra) (fall_back f r).0
    fall_back-SettlesBy limit extra none (never, s) h b = b
    fall_back-SettlesBy limit extra none (after m (ok a), s) h b = omega (arith, b)
    fall_back-SettlesBy limit extra none (after m (err e), s) h b = omega (arith, b)
    fall_back-SettlesBy limit extra (some g) (never, s) h b = b
    fall_back-SettlesBy limit extra (some g) (after m (ok a), s) h b = omega (arith, b)
    fall_back-SettlesBy limit extra (some g) (after m (err e), s) h b =
        delayed-SettlesBy m extra (limit + extra) (g e s).0 (omega (arith, b)) (h g refl e s)

    -- A mesh call whose timeout is finite and positive settles, whatever the nodes do and even if
    -- none ever answers: within the timeout for each attempt, the delay between them, and the time
    -- of the fallback, whose own time must be bounded.
    pub core-SettlesBy :
        (extra : ℕ)
        → ((g : MeshError → MeshState Value → Reply A × MeshState Value)
            → call_opts.fallback ≡ some g
            → (e : MeshError) (s : MeshState Value) → SettlesBy extra (g e s).0)
        → (s : MeshState Value)
        → SettlesBy
            (suc (retry_attempts options call_opts) * suc t
              + retry_attempts options call_opts * retry_delay_ms call_opts
              + extra)
            (core number_of lt half random_index invoke_local remote_dispatcher options action_name
              args call_opts s).0
    unfolding core
    core-SettlesBy extra falls s =
        fall_back-SettlesBy
          (suc (retry_attempts options call_opts) * suc t
            + retry_attempts options call_opts * retry_delay_ms call_opts)
          extra call_opts.fallback
          (tries number_of lt half random_index invoke_local remote_dispatcher options action_name
            args call_opts (retry_delay_ms call_opts) (retry_attempts options call_opts) s)
          falls (tries-SettlesBy (retry_delay_ms call_opts) (retry_attempts options call_opts) s)
