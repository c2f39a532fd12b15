-- ===== src/Mesh.antt =====
-- The peers that a node of the mesh knows (packages/mesh/src/discovery.ts), and the records of
-- packages/mesh/src/types.ts. `Value` stands for the values of a node's metadata. Times are
-- milliseconds.
mod Cache
mod Tests
pub mod Call
pub mod Dispatch
use chimpbase.Prelude.Maps.{includes}
use chimpbase.Prelude.{
  ℕ, ◌+◌, String, Bool, true, false, Option, none, some, List, [], ◌∷◌, ltb, str_eq, if◌then◌else◌,
}
use chimpbase.Prelude.Maps.{Map, get_key, set_key, delete_key}

pub record NodeServiceEntry : Type 0 where
  pub actions : List String
  pub events : List String
  pub name : String
  pub version : ℕ

pub record NodeRecord (Value : Type 0) : Type 0 where
  pub advertised_url : Option String
  pub last_heartbeat_ms : ℕ
  pub metadata : Map Value
  pub node_id : String
  pub services : List NodeServiceEntry
  pub started_at_ms : ℕ

-- The entries of `this.peers`.
abbrev pub MeshPeerCache : Type 0 → Type 0
MeshPeerCache Value = Map (NodeRecord Value)

-- `services.some((service) => service.actions.includes(actionName))`
unfoldable pub serves : String → List NodeServiceEntry → Bool
unfolding includes
serves action_name [] = false
serves action_name (service ∷ services) =
    if includes action_name service.actions then true else serves action_name services

module _ {Value : Type 0} where
  -- `{ ...existing, ...metadata }`
  unfoldable pub spread : Map Value → Map Value → Map Value
  unfolding set_key
  spread existing [] = existing
  spread existing ((k, v) ∷ metadata) = spread (set_key k v existing) metadata

  unfoldable pub upsert : NodeRecord Value → MeshPeerCache Value → MeshPeerCache Value
  unfolding set_key
  upsert node peers = set_key node.node_id node peers

  unfoldable pub seed : List (NodeRecord Value) → MeshPeerCache Value → MeshPeerCache Value
  unfolding upsert
  seed [] peers = peers
  seed (node ∷ records) peers = seed records (upsert node peers)

  unfoldable pub remove : String → MeshPeerCache Value → MeshPeerCache Value
  unfolding delete_key
  remove node_id peers = delete_key node_id peers

  abbrev pub touched : ℕ → Map Value → NodeRecord Value → NodeRecord Value
  touched heartbeat metadata existing = record existing {
    last_heartbeat_ms = heartbeat;
    metadata = spread existing.metadata metadata;
  }

  unfoldable pub touch : String → ℕ → Map Value → MeshPeerCache Value → MeshPeerCache Value
  unfolding get_key set_key spread
  touch node_id heartbeat metadata peers = elim (get_key node_id peers) [
    | none ↦ peers
    | some existing ↦ set_key node_id (touched heartbeat metadata existing) peers
  ]

  -- `lastHeartbeatMs < now - offlineAfterMs`, where the difference may be negative.
  abbrev pub is_stale : ℕ → ℕ → NodeRecord Value → Bool
  is_stale offline_after_ms now node = ltb (node.last_heartbeat_ms + offline_after_ms) now

  -- The loop of `all` over the entries: the fresh records, and the cache without the stale ones.
  unfoldable pub sweep :
      ℕ
      → ℕ
      → Map (NodeRecord Value)
      → MeshPeerCache Value
      → List (NodeRecord Value) × MeshPeerCache Value
  unfolding delete_key
  sweep offline_after_ms now [] peers = ([], peers)
  sweep offline_after_ms now ((key, node) ∷ entries) peers =
      let stale = is_stale offline_after_ms now node in
      let (fresh, peers') =
        sweep offline_after_ms now entries
          (if stale then delete_key node.node_id peers else peers) in
      if stale then (fresh, peers') else (node ∷ fresh, peers')

  unfoldable pub all : ℕ → ℕ → MeshPeerCache Value → List (NodeRecord Value) × MeshPeerCache Value
  unfolding sweep
  all offline_after_ms now peers = sweep offline_after_ms now peers peers

  unfoldable pub get : String → MeshPeerCache Value → Option (NodeRecord Value)
  unfolding get_key
  get node_id peers = get_key node_id peers

  unfoldable pub filter :
      (NodeRecord Value → Bool) → List (NodeRecord Value) → List (NodeRecord Value)
  filter p [] = []
  filter p (node ∷ nodes) = let rest = filter p nodes in if p node then node ∷ rest else rest

  unfoldable pub find_by_action :
      ℕ → ℕ → String → MeshPeerCache Value → List (NodeRecord Value) × MeshPeerCache Value
  unfolding all filter serves
  find_by_action offline_after_ms now action_name peers =
      let (fresh, peers') = all offline_after_ms now peers in
      (filter (λ node. serves action_name node.services) fresh, peers')
