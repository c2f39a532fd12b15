-- ===== src/Mesh/Call/Candidates.antt =====
-- The candidates among which a call's target is picked.
use chimpbase.Prelude.Maps.{includes}
use chimpbase.Prelude.{
  ℕ, ◌≡◌, ◌↔◌, refl, sym, ap, subst, ◌∙◌, ◌⊎◌, inl, inr, String, Bool, true, false, not, List, [],
  ◌∷◌, ◌++◌, map, In, str_eq, eq_iff, ◌≢◌, if◌then◌else◌, Bool-cases,
}
use chimpbase.Prelude.Maps.{str_ne}
use chimpbase.Mesh.{
  NodeRecord, MeshPeerCache, is_stale, serves, filter, sweep, all, find_by_action, delete_key,
}
use chimpbase.Mesh.Call.{
  PickResult, local, remote, MeshState, CallResolverOptions, remote_peers, candidates,
}

negated : (b : Bool) → not b ≡ true → b ≡ false
negated true e = sym e
negated false e = refl

In-append : {A : Type 0} (x : A) (xs ys : List A) → In x (xs ++ ys) ↔ (In x xs ⊎ In x ys)
In-append x [] ys = (λ i. inr i, λ i. elim i [ inl i ↦ absurd i | inr i ↦ i ])
In-append x (y ∷ xs) ys =
    let (to, from) = In-append x xs ys in
    (
      λ i. elim i [
        | inl e ↦ inl (inl e)
        | inr i ↦ elim (to i) [ inl j ↦ inl (inr j) | inr j ↦ inr j ]
      ],
      λ i. elim i [
        | inl i ↦ elim i [ inl e ↦ inl e | inr j ↦ inr (from (inl j)) ]
        | inr j ↦ inr (from (inr j))
      ],
    )

module _ {Value : Type 0} where
  In-map_remote :
      (peer : NodeRecord Value) (peers : List (NodeRecord Value))
      → In peer peers
      → In (remote peer) (map remote peers)
  In-map_remote peer [] i = absurd i
  In-map_remote peer (p ∷ peers) (inl e) = inl (ap remote e)
  In-map_remote peer (p ∷ peers) (inr i) = inr (In-map_remote peer peers i)

  map_remote-In :
      (target : PickResult Value) (peers : List (NodeRecord Value))
      → In target (map remote peers)
      → (peer : NodeRecord Value) × (target ≡ remote peer) × In peer peers
  map_remote-In target [] i = absurd i
  map_remote-In target (p ∷ peers) (inl e) = (p, e, inl refl)
  map_remote-In target (p ∷ peers) (inr i) =
      let (peer, e, there) = map_remote-In target peers i in (peer, e, inr there)

  In-filter :
      (p : NodeRecord Value → Bool) (nodes : List (NodeRecord Value)) (node : NodeRecord Value)
      → In node (filter p nodes) ↔ (In node nodes × (p node ≡ true))
  unfolding filter
  In-filter p [] node = (λ i. absurd i, λ i. i.0)
  In-filter p (n ∷ nodes) node =
      let (to, from) = In-filter p nodes node in
      elim (Bool-cases (p n)) [
        | inl yes_here ↦ rw yes_here (
          λ i. elim i [ inl e ↦ (inl e, ap p e ∙ yes_here) | inr j ↦ (inr (to j).0, (to j).1) ],
          λ i. elim i.0 [ inl e ↦ inl e | inr j ↦ inr (from (j, i.1)) ],
        )
        | inr off ↦ rw off (
          λ j. (inr (to j).0, (to j).1),
          λ i. elim i.0 [ inl e ↦ cc (off, i.1, ap p e) | inr j ↦ from (j, i.1) ],
        )
      ]

  abbrev pub records : MeshPeerCache Value → List (NodeRecord Value)
  records [] = []
  records ((key, node) ∷ peers) = node ∷ records peers

  sweep-records :
      (offline now : ℕ) (entries peers : MeshPeerCache Value)
      → (sweep offline now entries peers).0
        ≡ filter (λ node. not (is_stale offline now node)) (records entries)
  unfolding sweep filter
  sweep-records offline now [] peers = refl
  sweep-records offline now ((j, n) ∷ entries) peers = elim (Bool-cases (is_stale offline now n)) [
    | inl stale ↦ rw (stale, sweep-records offline now entries (delete_key n.node_id peers)) refl
    | inr fresh ↦ rw (fresh, sweep-records offline now entries peers) refl
  ]

  -- A peer that may be called: another node than this one, that the cache holds, whose last heartbeat
  -- is not too old, and which serves the action.
  abbrev pub IsPeer : CallResolverOptions → String → MeshState Value → NodeRecord Value → Type 0
  IsPeer options action_name s peer =
      In peer (records s.peers)
      × (is_stale options.offline_after_ms s.now peer ≡ false)
      × (serves action_name peer.services ≡ true)
      × (peer.node_id ≢ options.local_node_id)

  remote_peers-IsPeer :
      (options : CallResolverOptions) (action_name : String) (s : MeshState Value)
      (peer : NodeRecord Value)
      → In peer (remote_peers options action_name s).0 ↔ IsPeer options action_name s peer
  unfolding remote_peers find_by_action all
  remote_peers-IsPeer options action_name s peer =
      let served = λ (node : NodeRecord Value). serves action_name node.services in
      let fresh = λ (node : NodeRecord Value). not (is_stale options.offline_after_ms s.now node) in
      let listed = (sweep options.offline_after_ms s.now s.peers s.peers).0 in
      let same = sweep-records options.offline_after_ms s.now s.peers s.peers in
      let outer =
        In-filter (λ p. not (str_eq p.node_id options.local_node_id)) (filter served listed) peer in
      let middle = In-filter served listed peer in
      let inner = In-filter fresh (records s.peers) peer in
      (
        λ i.
            let (j, other) = outer.0 i in
            let (k, serving) = middle.0 j in
            let (there, live) = inner.0 (subst (In peer) same k) in
            (
              there,
              negated (is_stale options.offline_after_ms s.now peer) live,
              serving,
              λ e. cc (other, (eq_iff peer.node_id options.local_node_id).1 e),
            ),
        λ (there, live, serving, other). outer.1 (
          middle.1 (subst (In peer) (sym same) (inner.1 (there, ap not live)), serving),
          ap not (str_ne peer.node_id options.local_node_id other),
        ),
      )

  -- A target that may be picked.
  abbrev pub IsTarget : CallResolverOptions → String → MeshState Value → PickResult Value → Type 0
  IsTarget options action_name s (local id) =
      (id ≡ options.local_node_id) × (includes action_name options.local_action_names ≡ true)
  IsTarget options action_name s (remote peer) = IsPeer options action_name s peer

  from_local :
      (b : Bool) (id : String) (target : PickResult Value)
      → In target (if b then local id ∷ [] else [])
      → (target ≡ local id) × (b ≡ true)
  from_local true id target (inl e) = (e, refl)
  from_local true id target (inr i) = absurd i
  from_local false id target i = absurd i

  to_candidate :
      (options : CallResolverOptions) (action_name : String) (s : MeshState Value)
      (target : PickResult Value)
      → IsTarget options action_name s target
      → In target (
          if includes action_name options.local_action_names
          then local options.local_node_id ∷ []
          else [])
        ⊎ In target (map remote (remote_peers options action_name s).0)
  to_candidate options action_name s (local id) (same, available) =
      rw available (inl (inl (ap local same)))
  to_candidate options action_name s (remote peer) c = inr (
      In-map_remote peer (remote_peers options action_name s).0
        ((remote_peers-IsPeer options action_name s peer).1 c))

  pub candidates-IsTarget :
      (options : CallResolverOptions) (action_name : String) (s : MeshState Value)
      (target : PickResult Value)
      → In target (candidates options action_name (remote_peers options action_name s).0)
        ↔ IsTarget options action_name s target
  unfolding candidates
  candidates-IsTarget options action_name s target =
      let peers = (remote_peers options action_name s).0 in
      let split =
        In-append target
          (if includes action_name options.local_action_names
            then local options.local_node_id ∷ []
            else [])
          (map remote peers) in
      (
        λ i. elim (split.0 i) [
          | inl here ↦
              let (e, available) =
                from_local (includes action_name options.local_action_names) options.local_node_id
                  target here in
              subst (IsTarget options action_name s) (sym e) (refl, available)
          | inr there ↦
              let (peer, e, j) = map_remote-In target peers there in
              subst (IsTarget options action_name s) (sym e)
                ((remote_peers-IsPeer options action_name s peer).0 j)
        ],
        λ c. split.1 (to_candidate options action_name s target c),
      )
