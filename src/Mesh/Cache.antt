-- ===== src/Mesh/Cache.antt =====
-- The cache of peers as a function from ids to records: its invariant, and what each operation does to
-- the function.
use chimpbase.Prelude.{
  ℕ, ◌≡◌, refl, sym, ap, subst, ◌∙◌, inl, inr, String, Bool, true, false, Option, none, some, List,
  [], ◌∷◌, ◌&&◌, ◌||◌, str_eq, eq_iff, if◌then◌else◌, Bool-cases, Option-cases,
}
use chimpbase.Prelude.Maps.{
  Map, get_key, set_key, delete_key, get-set_same, get-set_other, get-delete_same, get-delete_other,
}
use chimpbase.Mesh.{
  NodeRecord, MeshPeerCache, touched, is_stale, upsert, remove, touch, sweep, all, get,
}

if_same : {A : Type 0} (b : Bool) (x : A) → (if b then x else x) ≡ x
if_same true x = refl
if_same false x = refl

&&_false : (b : Bool) → (b && false) ≡ false
&&_false true = refl
&&_false false = refl

some_ne_none : {A : Type 0} (a : A) → some a ≡ none → ⊥
some_ne_none a e = cc

-- What a cache shows under each id.
abbrev pub View : Type 0 → Type 0
View Value = String → Option (NodeRecord Value)

-- An operation of the cache. The last is `all` at a time.
pub data Operation (Value : Type 0) : Type 0 where
  upserts : NodeRecord Value → Operation Value
  removes : String → Operation Value
  touches : String → ℕ → Map Value → Operation Value
  lists : ℕ → Operation Value

module _ {Value : Type 0} where
  -- Each record stands under its own id, and no id twice.
  abbrev pub IsCache : MeshPeerCache Value → Type 0
  IsCache [] = Unit
  IsCache ((key, node) ∷ peers) = (node.node_id ≡ key) × (get_key key peers ≡ none) × IsCache peers

  set_key-IsCache :
      (key : String) (node : NodeRecord Value) (peers : MeshPeerCache Value)
      → node.node_id ≡ key
      → IsCache peers
      → IsCache (set_key key node peers)
  unfolding set_key get_key
  set_key-IsCache key node [] e c = (e, refl, tt)
  set_key-IsCache key node ((j, other) ∷ peers) e (same, once, c) =
      elim (Bool-cases (str_eq j key)) [
        | inl here ↦ rw here (e ∙ sym ((eq_iff j key).0 here), once, c)
        | inr off ↦ rw off (
          same,
          get-set_other key node peers j (λ f. cc (off, (eq_iff j key).1 (sym f))) ∙ once,
          set_key-IsCache key node peers e c,
        )
      ]

  get-delete_none :
      (key j : String) (peers : MeshPeerCache Value)
      → get_key j peers ≡ none
      → get_key j (delete_key key peers) ≡ none
  get-delete_none key j peers e = elim (Bool-cases (str_eq key j)) [
    | inl same ↦ rw (sym ((eq_iff key j).0 same)) (get-delete_same key peers)
    | inr off ↦ get-delete_other key peers j (λ f. cc (off, (eq_iff key j).1 f)) ∙ e
  ]

  delete_key-IsCache :
      (key : String) (peers : MeshPeerCache Value) → IsCache peers → IsCache (delete_key key peers)
  unfolding delete_key
  delete_key-IsCache key [] c = tt
  delete_key-IsCache key ((j, other) ∷ peers) (same, once, c) = elim (Bool-cases (str_eq j key)) [
    | inl here ↦ rw here (delete_key-IsCache key peers c)
    | inr off ↦ rw off (same, get-delete_none key j peers once, delete_key-IsCache key peers c)
  ]

  view-set :
      (id : String) (node : NodeRecord Value) (peers : MeshPeerCache Value) (key : String)
      → get_key key (set_key id node peers)
        ≡ (if str_eq id key then some node else get_key key peers)
  view-set id node peers key = elim (Bool-cases (str_eq id key)) [
    | inl same ↦ rw same (rw (sym ((eq_iff id key).0 same)) (get-set_same id node peers))
    | inr off ↦ rw off (get-set_other id node peers key (λ f. cc (off, (eq_iff id key).1 f)))
  ]

  view-delete :
      (id : String) (peers : MeshPeerCache Value) (key : String)
      → get_key key (delete_key id peers) ≡ (if str_eq id key then none else get_key key peers)
  view-delete id peers key = elim (Bool-cases (str_eq id key)) [
    | inl same ↦ rw same (rw (sym ((eq_iff id key).0 same)) (get-delete_same id peers))
    | inr off ↦ rw off (get-delete_other id peers key (λ f. cc (off, (eq_iff id key).1 f)))
  ]

  -- Whether the loop meets a stale record under `key`.
  abbrev meets : ℕ → ℕ → String → MeshPeerCache Value → Bool
  meets offline now key [] = false
  meets offline now key ((j, node) ∷ entries) =
      (is_stale offline now node && str_eq node.node_id key) || meets offline now key entries

  sweep_lem :
      (offline now : ℕ) (entries peers : MeshPeerCache Value) (key : String)
      → get_key key (sweep offline now entries peers).1
        ≡ (if meets offline now key entries then none else get_key key peers)
  unfolding sweep
  sweep_lem offline now [] peers key = refl
  sweep_lem offline now ((j, node) ∷ entries) peers key =
      elim (Bool-cases (is_stale offline now node)) [
        | inl stale ↦ rw stale (
            sweep_lem offline now entries (delete_key node.node_id peers) key
            ∙ rw (view-delete node.node_id peers key) (elim (Bool-cases (str_eq node.node_id key)) [
              | inl same ↦ rw same (if_same (meets offline now key entries) none)
              | inr off ↦ rw off refl
            ]))
        | inr fresh ↦ rw fresh (sweep_lem offline now entries peers key)
      ]

  -- Nothing is left of a stale record.
  abbrev fresh_only : ℕ → ℕ → Option (NodeRecord Value) → Option (NodeRecord Value)
  fresh_only offline now none = none
  fresh_only offline now (some node) = if is_stale offline now node then none else some node

  meets_absent :
      (offline now : ℕ) (key : String) (peers : MeshPeerCache Value)
      → IsCache peers
      → get_key key peers ≡ none
      → meets offline now key peers ≡ false
  unfolding get_key
  meets_absent offline now key [] c e = refl
  meets_absent offline now key ((j, node) ∷ peers) (same, once, c) e =
      elim (Bool-cases (str_eq j key)) [
        | inl here ↦ absurd (
            some_ne_none node
              (subst (λ b. (if b then some node else get_key key peers) ≡ none) here e))
        | inr off ↦
            rw
              (
                same,
                off,
                meets_absent offline now key peers c
                    (subst (λ b. (if b then some node else get_key key peers) ≡ none) off e),
                &&_false (is_stale offline now node),
              )
              refl
      ]

  -- What `all` leaves under each id.
  all_lem :
      (offline now : ℕ) (peers : MeshPeerCache Value) (key : String)
      → IsCache peers
      → (if meets offline now key peers then none else get_key key peers)
        ≡ fresh_only offline now (get_key key peers)
  unfolding get_key
  all_lem offline now [] key c = refl
  all_lem offline now ((j, node) ∷ peers) key (same, once, c) = elim (Bool-cases (str_eq j key)) [
    | inl here ↦
        let rest =
          meets_absent offline now key peers c
            (subst (λ k. get_key k peers ≡ none) ((eq_iff j key).0 here) once) in
        elim (Bool-cases (is_stale offline now node)) [
          | inl stale ↦ rw (here, same, here, stale) refl
          | inr fresh ↦ rw (here, fresh, rest) refl
        ]
    | inr off ↦
        rw (off, same, off, &&_false (is_stale offline now node)) (all_lem offline now peers key c)
  ]

  sweep-IsCache :
      (offline now : ℕ) (entries peers : MeshPeerCache Value)
      → IsCache peers
      → IsCache (sweep offline now entries peers).1
  unfolding sweep
  sweep-IsCache offline now [] peers c = c
  sweep-IsCache offline now ((j, node) ∷ entries) peers c =
      elim (Bool-cases (is_stale offline now node)) [
        | inl stale ↦ rw stale (
            sweep-IsCache offline now entries (delete_key node.node_id peers)
              (delete_key-IsCache node.node_id peers c))
        | inr fresh ↦ rw fresh (sweep-IsCache offline now entries peers c)
      ]

  abbrev pub run : ℕ → Operation Value → MeshPeerCache Value → MeshPeerCache Value
  run offline (upserts node) peers = upsert node peers
  run offline (removes id) peers = remove id peers
  run offline (touches id heartbeat metadata) peers = touch id heartbeat metadata peers
  run offline (lists now) peers = (all offline now peers).1

  abbrev pub run_all : ℕ → List (Operation Value) → MeshPeerCache Value → MeshPeerCache Value
  run_all offline [] peers = peers
  run_all offline (op ∷ ops) peers = run_all offline ops (run offline op peers)

  abbrev touched_if : ℕ → Map Value → Option (NodeRecord Value) → Option (NodeRecord Value)
  touched_if heartbeat metadata none = none
  touched_if heartbeat metadata (some node) = some (touched heartbeat metadata node)

  -- The operations on functions from ids to records.
  abbrev pub expected : ℕ → Operation Value → View Value → View Value
  expected offline (upserts node) v key = if str_eq node.node_id key then some node else v key
  expected offline (removes id) v key = if str_eq id key then none else v key
  expected offline (touches id heartbeat metadata) v key =
      if str_eq id key then touched_if heartbeat metadata (v key) else v key
  expected offline (lists now) v key = fresh_only offline now (v key)

  abbrev pub expected_all : ℕ → List (Operation Value) → View Value → View Value
  expected_all offline [] v = v
  expected_all offline (op ∷ ops) v = expected_all offline ops (expected offline op v)

  touch-absent :
      (id : String) (heartbeat : ℕ) (metadata : Map Value) (peers : MeshPeerCache Value)
      → get_key id peers ≡ none
      → touch id heartbeat metadata peers ≡ peers
  unfolding touch
  touch-absent id heartbeat metadata peers e = rw (e, touch) refl

  touch-present :
      (id : String) (heartbeat : ℕ) (metadata : Map Value) (peers : MeshPeerCache Value)
      (node : NodeRecord Value)
      → get_key id peers ≡ some node
      → touch id heartbeat metadata peers ≡ set_key id (touched heartbeat metadata node) peers
  unfolding touch
  touch-present id heartbeat metadata peers node e = rw (e, touch) refl

  view_touch :
      (id : String) (heartbeat : ℕ) (metadata : Map Value) (peers : MeshPeerCache Value)
      (key : String)
      → get_key key (touch id heartbeat metadata peers) ≡ (
          if str_eq id key
          then touched_if heartbeat metadata (get_key key peers)
          else get_key key peers)
  unfolding touch
  view_touch id heartbeat metadata peers key = elim (Option-cases (get_key id peers)) [
    | inl nothing ↦
        rw (nothing, touch)
          (elim (Bool-cases (str_eq id key)) [
            | inl same ↦ rw same (rw (sym ((eq_iff id key).0 same)) (rw nothing refl))
            | inr off ↦ rw off refl
          ])
    | inr (node, there) ↦
        rw (there, touch)
          (view-set id (touched heartbeat metadata node) peers key
            ∙ elim (Bool-cases (str_eq id key)) [
              | inl same ↦ rw same (rw (sym ((eq_iff id key).0 same)) (rw there refl))
              | inr off ↦ rw off refl
            ])
  ]

  get-IsCache :
      (key : String) (node : NodeRecord Value) (peers : MeshPeerCache Value)
      → IsCache peers
      → get_key key peers ≡ some node
      → node.node_id ≡ key
  unfolding get_key
  get-IsCache key node [] c e = cc
  get-IsCache key node ((j, other) ∷ peers) (same, once, c) e = elim (Bool-cases (str_eq j key)) [
    | inl here ↦ cc (e, here, same, (eq_iff j key).0 here)
    | inr off ↦
        get-IsCache key node peers c
          (subst (λ b. (if b then some other else get_key key peers) ≡ some node) off e)
  ]

  run-IsCache :
      (offline : ℕ) (op : Operation Value) (peers : MeshPeerCache Value)
      → IsCache peers
      → IsCache (run offline op peers)
  unfolding upsert remove touch all
  run-IsCache offline (upserts node) peers c = set_key-IsCache node.node_id node peers refl c
  run-IsCache offline (removes id) peers c = delete_key-IsCache id peers c
  run-IsCache offline (touches id heartbeat metadata) peers c =
      elim (Option-cases (get_key id peers)) [
        | inl nothing ↦ subst IsCache (sym (touch-absent id heartbeat metadata peers nothing)) c
        | inr (node, there) ↦
            subst IsCache (sym (touch-present id heartbeat metadata peers node there)) (
              set_key-IsCache id (touched heartbeat metadata node) peers
                (get-IsCache id node peers c there) c)
      ]
  run-IsCache offline (lists now) peers c = sweep-IsCache offline now peers peers c

  view-run :
      (offline : ℕ) (op : Operation Value) (peers : MeshPeerCache Value) (key : String)
      → IsCache peers
      → get key (run offline op peers) ≡ expected offline op (λ k. get k peers) key
  unfolding upsert remove all get
  view-run offline (upserts node) peers key c = view-set node.node_id node peers key
  view-run offline (removes id) peers key c = view-delete id peers key
  view-run offline (touches id heartbeat metadata) peers key c =
      view_touch id heartbeat metadata peers key
  view-run offline (lists now) peers key c =
      sweep_lem offline now peers peers key ∙ all_lem offline now peers key c

  -- From a cache in which each record stands under its own id and no id twice, any sequence of
  -- upsert, remove, touch and all keeps that, and shows under every id what the same sequence of
  -- updates of a function from ids to records shows.
  pub run_all-refines :
      (offline : ℕ) (ops : List (Operation Value)) (peers : MeshPeerCache Value)
      → IsCache peers
      → IsCache (run_all offline ops peers)
        × ((key : String)
            → get key (run_all offline ops peers) ≡ expected_all offline ops (λ k. get k peers) key)
  run_all-refines offline [] peers c = (c, λ key. refl)
  run_all-refines offline (op ∷ ops) peers c =
      let (after, shows) =
        run_all-refines offline ops (run offline op peers) (run-IsCache offline op peers c) in
      (
        after,
        λ key.
            shows key
            ∙ ap (λ (v : View Value). expected_all offline ops v key)
                (λ i k. view-run offline op peers k c i),
      )
