-- ===== src/Mesh/Dispatch/Retries.antt =====
-- The attempts of a call one after the other.
use chimpbase.Prelude.{
  ℕ, zero, suc, ◌+◌, ◌-◌, ◌≤◌, ◌≡◌, refl, sym, ap, ◌∙◌, String, Bool, Option, none, some, List,
  arith,
}
use chimpbase.Prelude.Result.{ok, err}
use chimpbase.Mesh.Call.{
  MeshError, MeshState, CallResolverOptions, Reply, after, never, CallOptions,
}
use chimpbase.Mesh.Dispatch.{
  CallArgs, advance, delayed, RemoteDispatcher, attempt, then_delayed, on_error, tries,
  retry_attempts, retry_delay_ms, fall_back, core,
}

delayed_zero : {A : Type 0} (r : Reply A) → delayed 0 r ≡ r
delayed_zero never = refl
delayed_zero (after t r) = ap (λ m. after m r) (omega arith)

delayed-delayed : {A : Type 0} (a b : ℕ) (r : Reply A) → delayed a (delayed b r) ≡ delayed (a + b) r
delayed-delayed a b never = refl
delayed-delayed a b (after t r) = ap (λ m. after m r) (omega arith)

module _ {Value Number A : Type 0} (number_of : Value → Option Number) (lt : Number → Number → Bool)
    (half : Number) (random_index : ℕ → MeshState Value → ℕ)
    (invoke_local : String → List Value → MeshState Value → Reply A × MeshState Value)
    (remote_dispatcher : Option (RemoteDispatcher Value A)) (options : CallResolverOptions)
    (action_name : String) (args : CallArgs Value) (call_opts : CallOptions Value A) where
  abbrev attempted : MeshState Value → Reply A × MeshState Value
  attempted s =
      attempt number_of lt half random_index invoke_local remote_dispatcher options action_name args
        call_opts s

  -- Some attempts in a row that all fail, each with the delay after it: how many, how long they take,
  -- and the state after them.
  pub data Fails (delay_ms : ℕ) : ℕ → ℕ → MeshState Value → MeshState Value → Type 0 where
    start : (s : MeshState Value) → Fails delay_ms 0 0 s s
    fail :
        (k ms t : ℕ) (e : MeshError) (s u s' : MeshState Value)
        → attempted s ≡ (after t (err e), u)
        → Fails delay_ms k ms (advance delay_ms (advance t u)) s'
        → Fails delay_ms (suc k) (t + delay_ms + ms) s s'

  abbrev tried : ℕ → ℕ → MeshState Value → Reply A × MeshState Value
  tried delay_ms left s =
      tries number_of lt half random_index invoke_local remote_dispatcher options action_name args
        call_opts delay_ms left s

  -- The attempts that fail only take their time.
  tries-Fails :
      (delay_ms n k left ms : ℕ) (s s' : MeshState Value)
      → n ≡ k + left
      → Fails delay_ms k ms s s'
      → tried delay_ms n s ≡ then_delayed ms (tried delay_ms left s')
  unfolding tries
  tries-Fails delay_ms n k left ms s s' e (start u) =
      ap (λ m. tried delay_ms m u) (omega (arith, e))
      ∙ ap (λ r. (r, (tried delay_ms left u).1)) (sym (delayed_zero (tried delay_ms left u).0))
  tries-Fails delay_ms zero k left ms s s' e (fail k' ms' t error s0 u s0' a f) =
      absurd (omega (arith, e))
  tries-Fails delay_ms (suc n) k left ms s s' e (fail k' ms' t error s0 u s0' a f) =
      let later =
        tries-Fails delay_ms n k' left ms' (advance delay_ms (advance t u)) s0' (omega (arith, e))
          f in
      ap (on_error (λ m x v. then_delayed (m + delay_ms) (tried delay_ms n (advance delay_ms v)))) a
      ∙ (ap (then_delayed (t + delay_ms)) later
          ∙ ap (λ r. (r, (tried delay_ms left s0').1))
              (delayed-delayed (t + delay_ms) ms' (tried delay_ms left s0').0))

  abbrev called : MeshState Value → Reply A × MeshState Value
  called s =
      core number_of lt half random_index invoke_local remote_dispatcher options action_name args
        call_opts s

  -- An attempt that returns a value ends the loop.
  tries-returns :
      (delay_ms left t : ℕ) (a : A) (s u : MeshState Value)
      → attempted s ≡ (after t (ok a), u)
      → tried delay_ms left s ≡ (after t (ok a), advance t u)
  unfolding tries
  tries-returns delay_ms zero t a s u e = ap (on_error (λ m x v. (after m (err x), v))) e
  tries-returns delay_ms (suc left) t a s u e =
      ap
        (on_error (λ m x v. then_delayed (m + delay_ms) (tried delay_ms left (advance delay_ms v))))
        e

  fall_back-ok :
      (f : Option (MeshError → MeshState Value → Reply A × MeshState Value)) (t : ℕ) (a : A)
      (s : MeshState Value)
      → fall_back f (after t (ok a), s) ≡ (after t (ok a), s)
  fall_back-ok none t a s = refl
  fall_back-ok (some f) t a s = refl

  -- If the first attempts of a call fail, no more of them than there are retries, and the next
  -- returns a value, the call returns that value after the time that the attempts and the delays
  -- took.
  pub core-recovers :
      (k ms t : ℕ) (a : A) (s s' u : MeshState Value)
      → Fails (retry_delay_ms call_opts) k ms s s'
      → k ≤ (retry_attempts options call_opts)
      → attempted s' ≡ (after t (ok a), u)
      → called s ≡ (after (ms + t) (ok a), advance t u)
  unfolding core
  core-recovers k ms t a s s' u f le e =
      ap (fall_back call_opts.fallback) (
        tries-Fails (retry_delay_ms call_opts) (retry_attempts options call_opts) k
          ((retry_attempts options call_opts) - k) ms s s' (omega (arith, le)) f
        ∙ ap (then_delayed ms) (
            tries-returns (retry_delay_ms call_opts) ((retry_attempts options call_opts) - k) t a s'
              u e))
      ∙ fall_back-ok call_opts.fallback (ms + t) a (advance t u)
