-- ===== src/Mesh/Dispatch/Tests.antt =====
-- A call of an action that fails on the first peer, and one that never answers.
use chimpbase.Prelude.{or_else}
use chimpbase.Prelude.{
  ℕ, ◌≡◌, refl, ap, subst, none, some, List, [], ◌∷◌, String, ltb, if◌then◌else◌, arith, str_eq,
}
use chimpbase.Prelude.Result.{ok}
use chimpbase.Mesh.Tests.{two_peers}
use chimpbase.Mesh.Call.{
  round_robin, MeshError, timeout, MeshState, CallResolverOptions, Reply, after, never, CallOptions,
}
use chimpbase.Mesh.Dispatch.{value, RemoteDispatcher, attempt, core}
use chimpbase.Mesh.Dispatch.Retries.{start, fail}
use chimpbase.Mesh.Dispatch.Deadline.{SettlesBy}
use chimpbase.Mesh.Dispatch.Retries
use chimpbase.Mesh.Dispatch.Deadline

abbrev resolver : CallResolverOptions
resolver = record {
  default_retries = 1;
  default_strategy = round_robin;
  default_timeout_ms = some 50;
  local_action_names = [];
  local_node_id = "here";
  offline_after_ms = 5000;
}

abbrev resting : MeshState ℕ
resting = record { peers = two_peers; round_robin_counters = []; now = 3000 }

abbrev plain : CallOptions ℕ ℕ
plain = record { fallback = none; node_id = none; retry = none; strategy = none; timeout_ms = none }

abbrev first_index : ℕ → MeshState ℕ → ℕ
first_index n s = 0

abbrev silent : String → List ℕ → MeshState ℕ → Reply ℕ × MeshState ℕ
silent action_name args s = (never, s)

-- The node "b" never answers, and the others do after 7 ms.
abbrev dispatch : RemoteDispatcher ℕ ℕ
dispatch action_name args deadline peer s =
    (if str_eq peer.node_id "b" then never else after 7 (ok 42), s)

abbrev called : MeshState ℕ → Reply ℕ × MeshState ℕ
called s = core some ltb 500 first_index silent (some dispatch) resolver "charge" (value 5) plain s

-- 50 ms for the timeout, 100 ms of delay, and 7 ms for the answer.
second_answers : (called resting).0 ≡ after 157 (ok 42)
unfolding core
second_answers = refl

abbrev turns : ℕ → ℕ → MeshState ℕ
turns n now = record { peers = two_peers; round_robin_counters = ("charge", n) ∷ []; now = now }

core-recovers_example : called resting ≡ (after 157 (ok 42), turns 2 3157)
unfolding attempt
core-recovers_example =
    Retries.core-recovers some ltb 500 first_index silent (some dispatch) resolver "charge"
      (value 5) plain 1 150 7 42 resting (turns 1 3150) (turns 2 3150)
      (fail 0 0 50 (timeout "charge" "b" 50) resting (turns 1 3000) (turns 1 3150) refl
        (start (turns 1 3150)))
      (omega arith) refl

-- No peer answers, and the fallback gives its value at once.
abbrev deaf : RemoteDispatcher ℕ ℕ
deaf action_name args deadline peer s = (never, s)

abbrev default_value : MeshError → MeshState ℕ → Reply ℕ × MeshState ℕ
default_value e s = (after 0 (ok 9), s)

abbrev careful : CallOptions ℕ ℕ
careful = record plain { fallback = some default_value }

core-SettlesBy_example :
    SettlesBy 200
      (core some ltb 500 first_index silent
        (some deaf)
        resolver
        "charge"
        (value 5)
        careful
        resting).0
core-SettlesBy_example =
    Deadline.core-SettlesBy some ltb 500 first_index silent (some deaf) resolver "charge" (value 5)
      careful 49 refl 0
      (λ g e error s.
        subst (λ (f : MeshError → MeshState ℕ → Reply ℕ × MeshState ℕ). SettlesBy 0 (f error s).0)
          (ap (λ o. or_else o default_value) e) (omega arith))
      resting
