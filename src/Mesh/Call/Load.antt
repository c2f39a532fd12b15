-- ===== src/Mesh/Call/Load.antt =====
-- The target of the cpu strategy.
use chimpbase.Prelude.{
  ◌≡◌, refl, sym, ap, subst, ◌∙◌, ℕ, inl, inr, String, Bool, true, false, Option, none, some, List,
  [], ◌∷◌, In, Bool-cases,
}
use chimpbase.Mesh.Call.{
  cpu, PickResult, MeshState, CallResolverOptions, pinned_id, remote_peers, candidates, load_of,
  least_loaded, pick_among, pick_target,
}
use chimpbase.Mesh.Call.Targets.{pick_target_unpinned}
use chimpbase.Mesh.Call.Candidates.{IsTarget, candidates-IsTarget}

module _ {Value Number : Type 0} (number_of : Value → Option Number) (lt : Number → Number → Bool)
    (half : Number) (random_index : ℕ → MeshState Value → ℕ)
    (lt_asym : (a b : Number) → lt a b ≡ true → lt b a ≡ false)
    (ge_trans : (a b c : Number) → lt a b ≡ false → lt b c ≡ false → lt a c ≡ false) where
  abbrev load : PickResult Value → Number
  load target = load_of number_of lt half random_index target

  irreflexive : (a : Number) → lt a a ≡ false
  irreflexive a = elim (Bool-cases (lt a a)) [ inl e ↦ lt_asym a a e | inr e ↦ e ]

  -- No member of the list has a smaller load.
  least_loaded-least :
      (best : PickResult Value) (rest : List (PickResult Value)) (target : PickResult Value)
      → In target (best ∷ rest)
      → lt (load target) (load (least_loaded number_of lt half random_index best rest)) ≡ false
  unfolding least_loaded
  least_loaded-least best [] target (inl e) = rw e (irreflexive (load best))
  least_loaded-least best [] target (inr i) = absurd i
  least_loaded-least best (c ∷ rest) target i = elim (Bool-cases (lt (load c) (load best))) [
    | inl swap ↦ rw swap (elim i [
      | inl e ↦
          ge_trans (load target) (load c)
            (load (least_loaded number_of lt half random_index c rest))
            (rw e (lt_asym (load c) (load best) swap)) (least_loaded-least c rest c (inl refl))
      | inr j ↦ least_loaded-least c rest target j
    ])
    | inr keep ↦ rw keep (elim i [
      | inl e ↦ least_loaded-least best rest target (inl e)
      | inr j ↦ elim j [
        | inl e ↦
            ge_trans (load target) (load best)
              (load (least_loaded number_of lt half random_index best rest)) (rw e keep)
              (least_loaded-least best rest best (inl refl))
        | inr later ↦ least_loaded-least best rest target (inr later)
      ]
    ])
  ]

  among-least :
      (action_name : String) (cs : List (PickResult Value)) (s : MeshState Value)
      (picked target : PickResult Value)
      → (pick_among number_of lt half random_index cpu action_name cs s).0 ≡ some picked
      → In target cs
      → lt (load target) (load picked) ≡ false
  unfolding pick_among
  among-least action_name [] s picked target e i = absurd i
  among-least action_name (c ∷ cs) s picked target e i =
      subst
        (λ (o : Option (PickResult Value)).
          lt (load target) (elim o [ none ↦ half | some p ↦ load p ]) ≡ false)
        e (least_loaded-least c cs target i)

  -- With the strategy cpu and no pinned node, no node that may be called has a smaller load than
  -- the one that pickTarget returns, where the numbers are ordered.
  pub pick_target-least :
      (options : CallResolverOptions) (action_name : String) (pinned : Option String)
      (s : MeshState Value) (picked target : PickResult Value)
      → pinned_id pinned ≡ none
      → (pick_target number_of lt half random_index options action_name pinned cpu s).0
        ≡ some picked
      → IsTarget options action_name s target
      → lt (load target) (load picked) ≡ false
  pick_target-least options action_name pinned s picked target unpinned e may =
      let (peers, s') = remote_peers options action_name s in
      among-least action_name (candidates options action_name peers) s' picked target
        (sym (
            ap (λ (p : Option (PickResult Value) × MeshState Value). p.0)
              (pick_target_unpinned number_of lt half random_index options action_name pinned cpu s
                unpinned))
          ∙ e)
        ((candidates-IsTarget options action_name s target).1 may)
