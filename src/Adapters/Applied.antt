-- ===== src/Adapters/Applied.antt =====
-- What a strict installation that returns has done for every pair of tensors of the file.
use edge.Base.{
  ◌≡◌, refl, ◌∙◌, sym, subst, List, [], ◌∷◌, ◌++◌, Option, none, some, true, not, ◌&&◌, arith,
  Option-cases, Bool-cases, inl, inr, if_ind, elim_some,
}
use edge.Server.Text.{Text, codes, same}
use edge.Server.Text.Laws.{same→eq}
use edge.Server.Text.Member.{has, has-append}
use edge.Adapters.{
  LoraLinear, Tree, Halves, split_dots, join_dots, but_last, last_part, half_a, half_b, Report,
  group_targets, sort_targets, resolve, has_attr, bind_lora, install_pair, install_target,
  install_targets, install_lora,
}
use edge.Adapters.Grouped.{
  is_some, held, names, group_targets-held, complete, find-complete, complete-sort_targets,
  target_of_a, target_of_b,
}

module _ {W : Type 0} where
  -- What holds of a state that may be given.
  abbrev OnState : (W × Report → Type 0) → Option (W × Report) → Type 0
  OnState P none = Unit
  OnState P (some s) = P s

  bind-OnState :
      (P Q : W × Report → Type 0) (o : Option (W × Report)) (f : W × Report → Option (W × Report))
      → OnState P o
      → ((s : W × Report) → P s → OnState Q (f s))
      → OnState Q (elim o [ none ↦ none | some s ↦ f s ])
  bind-OnState P Q none f h k = tt
  bind-OnState P Q (some s) f h k = k s h

-- `IsBound w owner name` says that in `w` the attribute `name` of `owner` is a LoraLinear: `setattr` makes it
-- so, and binding any attribute to a LoraLinear leaves it so.
module _ {W N T F : Type 0} (tree : Tree W N T F) (cast : T → T) (scale : F)
    (IsBound : W → N → Text → Type 0)
    (bound_here : (w : W) (owner : N) (name : Text) (lora : LoraLinear N T F)
      → IsBound (tree.bind w owner name lora) owner name)
    (bound_kept : (w : W) (owner owner' : N) (name name' : Text) (lora : LoraLinear N T F)
      → IsBound w owner name
      → IsBound (tree.bind w owner' name' lora) owner name) where
  -- A LoraLinear stands where the path of the target leads in some state.
  abbrev pub IsHeld : Text → W → Type 0
  IsHeld t w =
      (at : W) × (owner : N) × (resolve tree at (join_dots (but_last (split_dots t))) ≡ some owner)
      × IsBound w owner (last_part (split_dots t))

  -- The target is applied and bound, and none was missed.
  abbrev pub IsDone : Text → W × Report → Type 0
  IsDone t s = (has t s.1.applied ≡ true) × (s.1.not_found ≡ []) × IsHeld t s.0

  -- A strict installation of a pair raises, or binds its target and adds it to the applied ones.
  install_pair-OnState :
      (P : W × Report → Type 0) (key : Text) (a b : T) (w : W) (r : Report)
      → ((owner : N) (lora : LoraLinear N T F)
          → resolve tree w (join_dots (but_last (split_dots key))) ≡ some owner
          → P (
            tree.bind w owner (last_part (split_dots key)) lora,
            record r { applied = r.applied ++ key ∷ [] },
          ))
      → OnState P (install_pair tree true cast scale key a b (w, r))
  unfolding install_pair bind_lora
  install_pair-OnState P key a b w r h = elim (Option-cases (resolve tree w key)) [
    | inl lost ↦ rw (lost, install_pair) tt
    | inr (target, found) ↦
        rw (found, install_pair)
          (if_ind (OnState P) (tree.is_none target) tt (
            if_ind (OnState P)
              (not (has_attr tree w target (codes "weight"))
                && not (has_attr tree w target (codes "base")))
              tt (bound target)))
  ]
    where
      bound :
          (target : N)
          → OnState P (elim (bind_lora tree cast scale w key target a b) [
            | none ↦ none
            | some w' ↦ some (w', record r { applied = r.applied ++ key ∷ [] })
          ])
      bound target = elim (Option-cases (resolve tree w (join_dots (but_last (split_dots key))))) [
        | inl lost ↦ rw (lost, bind_lora) tt
        | inr (owner, found) ↦ rw (found, bind_lora) (h owner _ found)
      ]

  install_target-keeps :
      (t key : Text) (a b : Option T) (w : W) (r : Report)
      → IsDone t (w, r)
      → OnState
          (IsDone t)
          (install_target tree true cast scale (key, record { a = a; b = b }) (w, r))
  unfolding install_target
  install_target-keeps t key none b w r h = h
  install_target-keeps t key (some a) none w r h = h
  install_target-keeps t key (some a) (some b) w r (applied, found, (at, owner, path, bound)) =
      install_pair-OnState (IsDone t) key a b w r (λ owner' lora e. (
        ground (arith, has-append t r.applied (key ∷ []), applied),
        found,
        (
          at,
          owner,
          path,
          bound_kept w owner owner' (last_part (split_dots t)) (last_part (split_dots key)) lora
              bound,
        ),
      ))

  install_targets-keeps :
      (t : Text) (targets : List (Text × Halves T)) (w : W) (r : Report)
      → IsDone t (w, r)
      → OnState (IsDone t) (install_targets tree true cast scale targets (w, r))
  unfolding install_targets
  install_targets-keeps t [] w r h = h
  install_targets-keeps t ((key, d) ∷ targets) w r h =
      bind-OnState (IsDone t) (IsDone t) (install_target tree true cast scale (key, d) (w, r))
        (install_targets tree true cast scale targets) (install_target-keeps t key d.a d.b w r h)
        (λ s. install_targets-keeps t targets s.0 s.1)

  -- Whether or not the target has both halves, none is missed.
  install_target-found :
      (key : Text) (a b : Option T) (w : W) (r : Report)
      → r.not_found ≡ []
      → OnState
          (λ (s : W × Report). s.1.not_found ≡ [])
          (install_target tree true cast scale (key, record { a = a; b = b }) (w, r))
  unfolding install_target
  install_target-found key none b w r h = h
  install_target-found key (some a) none w r h = h
  install_target-found key (some a) (some b) w r h =
      install_pair-OnState (λ (s : W × Report). s.1.not_found ≡ []) key a b w r (λ owner lora e. h)

  install_target-applies :
      (t key : Text) (a b : Option T) (w : W) (r : Report)
      → (same key t && (is_some a && is_some b)) ≡ true
      → r.not_found ≡ []
      → OnState
          (IsDone t)
          (install_target tree true cast scale (key, record { a = a; b = b }) (w, r))
  unfolding install_target is_some has
  install_target-applies t key none b w r c h = absurd (ground (arith, c))
  install_target-applies t key (some a) none w r c h = absurd (ground (arith, c))
  install_target-applies t key (some a) (some b) w r c h =
      let eq : key ≡ t = same→eq key t (ground (arith, c)) in
      install_pair-OnState (IsDone t) key a b w r (λ owner lora e. (
        ground (arith, has-append t r.applied (key ∷ []), c),
        h,
        subst (λ k. IsHeld k (tree.bind w owner (last_part (split_dots key)) lora)) eq
            (w, owner, e, bound_here w owner (last_part (split_dots key)) lora),
      ))

  install_targets-applies :
      (t : Text) (targets : List (Text × Halves T)) (w : W) (r : Report)
      → complete t targets ≡ true
      → r.not_found ≡ []
      → OnState (IsDone t) (install_targets tree true cast scale targets (w, r))
  unfolding install_targets complete held
  install_targets-applies t [] w r c h = absurd (ground (arith, c))
  install_targets-applies t ((key, d) ∷ targets) w r c h =
      elim (Bool-cases (same key t && (is_some d.a && is_some d.b))) [
        | inl whole ↦
            bind-OnState (IsDone t) (IsDone t) (install_target tree true cast scale (key, d) (w, r))
              (install_targets tree true cast scale targets)
              (install_target-applies t key d.a d.b w r whole h)
              (λ s. install_targets-keeps t targets s.0 s.1)
        | inr other ↦
            bind-OnState (λ (s : W × Report). s.1.not_found ≡ []) (IsDone t)
              (install_target tree true cast scale (key, d) (w, r))
              (install_targets tree true cast scale targets)
              (install_target-found key d.a d.b w r h)
              (λ s. install_targets-applies t targets s.0 s.1 (ground (arith, other)))
      ]

  -- If a strict installation of a file returns, each target of which the file has both halves is reported as
  -- applied, a LoraLinear is bound at the attribute that the last part of its path names, of the object to
  -- which the parts before led, and none was not found.
  pub install_lora-IsDone :
      (file : List (Text × T)) (w w' : W) (r : Report) (t : Text)
      → install_lora tree true cast scale (some file) w ≡ some (w', r)
      → has (t ++ codes ".lora_A") (names file) ≡ true
      → has (t ++ codes ".lora_B") (names file) ≡ true
      → IsDone t (w', r)
  unfolding install_lora
  install_lora-IsDone [] w w' r t e a b = absurd (ground (arith, e))
  install_lora-IsDone ((k, v) ∷ file) w w' r t e a b =
      elim (Option-cases (group_targets ((k, v) ∷ file) [])) [
        | inl bad ↦ absurd (ground (arith, bad, e))
        | inr (targets, good) ↦
            let held_a =
              group_targets-held (t ++ codes ".lora_A") t half_a ((k, v) ∷ file) [] targets
                (target_of_a t) good a in
            let held_b =
              group_targets-held (t ++ codes ".lora_B") t half_b ((k, v) ∷ file) [] targets
                (target_of_b t) good b in
            subst (OnState (IsDone t))
              (sym (
                  elim_some none
                    (λ ts.
                      install_targets tree true cast scale (sort_targets ts)
                        (w, record { applied = []; not_found = []; skipped = [] }))
                    (group_targets ((k, v) ∷ file) []) targets good)
                ∙ e)
              (install_targets-applies t (sort_targets targets) w
                (record { applied = []; not_found = []; skipped = [] })
                (complete-sort_targets t targets ∙ find-complete t targets held_a held_b) refl)
      ]
