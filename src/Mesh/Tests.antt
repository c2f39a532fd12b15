-- ===== src/Mesh/Tests.antt =====
-- Two nodes that serve an action, and the cache after some events.
use chimpbase.Prelude.{ℕ, ◌≡◌, refl, none, List, [], ◌∷◌, String}
use chimpbase.Prelude.Maps.{get_key}
use chimpbase.Mesh.{NodeServiceEntry, NodeRecord, MeshPeerCache, get, find_by_action}
use chimpbase.Mesh.Cache.{
  IsCache, Operation, upserts, removes, touches, lists, run_all, expected_all,
}
use chimpbase.Mesh.Cache

abbrev pub billing : NodeServiceEntry
billing = record { actions = "charge" ∷ []; events = []; name = "billing"; version = 1 }

abbrev pub node_at : String → ℕ → ℕ → NodeRecord ℕ
node_at id heartbeat cpu_load = record {
  advertised_url = none;
  last_heartbeat_ms = heartbeat;
  metadata = ("cpuLoad", cpu_load) ∷ [];
  node_id = id;
  services = billing ∷ [];
  started_at_ms = 0;
}

abbrev pub two_peers : MeshPeerCache ℕ
two_peers = ("a", node_at "a" 1000 700) ∷ ("b", node_at "b" 2000 200) ∷ []

stale_left :
    find_by_action 500 2000 "charge" two_peers
    ≡ (node_at "b" 2000 200 ∷ [], ("b", node_at "b" 2000 200) ∷ [])
unfolding find_by_action
stale_left = refl

abbrev events : List (Operation ℕ)
events =
    upserts (node_at "c" 2100 0)
    ∷ touches "b" 2200 (("cpuLoad", 300) ∷ [])
    ∷ lists 2300
    ∷ removes "c"
    ∷ []

run_all-refines_example :
    IsCache (run_all 500 events two_peers)
    × ((key : String)
        → get key (run_all 500 events two_peers)
          ≡ expected_all 500 events (λ k. get k two_peers) key)
unfolding get_key
run_all-refines_example = Cache.run_all-refines 500 events two_peers (refl, refl, (refl, refl, tt))
