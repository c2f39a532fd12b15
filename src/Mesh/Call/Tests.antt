-- ===== src/Mesh/Call/Tests.antt =====
-- Calls of an action that this node and two peers serve.
use chimpbase.Prelude.{
  ℕ, ◌-◌, ◌<◌, ◌≡◌, refl, false, none, some, [], ◌∷◌, length, ltb, inl, inr, arith,
}
use chimpbase.Mesh.{serves}
use chimpbase.Mesh.Tests.{node_at, two_peers}
use chimpbase.Mesh.Call.{
  local_first, random, remote, MeshState, CallResolverOptions, load_of, pick_target,
}
use chimpbase.Mesh.Call.Targets.{IsPick}
use chimpbase.Mesh.Call.RoundRobin.{candidates_at, nth_pick}
use chimpbase.Mesh.Call.Targets
use chimpbase.Mesh.Call.RoundRobin
use chimpbase.Mesh.Call.Load

abbrev pub resolver : CallResolverOptions
resolver = record {
  default_retries = 1;
  default_strategy = local_first;
  default_timeout_ms = some 50;
  local_action_names = "charge" ∷ [];
  local_node_id = "here";
  offline_after_ms = 5000;
}

abbrev pub resting : MeshState ℕ
resting = record { peers = two_peers; round_robin_counters = []; now = 3000 }

-- The last index.
abbrev pub last_index : ℕ → MeshState ℕ → ℕ
last_index n s = n - 1

pick_target-IsPick_example :
    IsPick resolver "charge" resting
      (pick_target some ltb 500 last_index resolver "charge" (some "") random resting).0
pick_target-IsPick_example =
    Targets.pick_target-IsPick some ltb 500 last_index (λ n s h. omega (arith, h)) resolver "charge"
      (some "") random resting refl

nth_pick-reaches_example :
    (k : ℕ) × (k < length (candidates_at resolver "charge" resting))
    × (nth_pick some ltb 500 last_index resolver "charge" none k resting
        ≡ some (remote (node_at "b" 2000 200)))
unfolding serves
nth_pick-reaches_example =
    RoundRobin.nth_pick-reaches some ltb 500 last_index resolver "charge" none resting
      (remote (node_at "b" 2000 200)) refl (refl, (refl, tt))
      (inr (inl refl), refl, refl, λ e. cc e)

pick_target-least_example :
    ltb
      (load_of some ltb 500 last_index (remote (node_at "a" 1000 700)))
      (load_of some ltb 500 last_index (remote (node_at "b" 2000 200)))
    ≡ false
unfolding pick_target serves
pick_target-least_example =
    Load.pick_target-least some ltb 500 last_index (λ a b h. ground arith)
      (λ a b c h h'. ground arith) resolver "charge" none resting (remote (node_at "b" 2000 200))
      (remote (node_at "a" 1000 700)) refl refl (inl refl, refl, refl, λ e. cc e)
