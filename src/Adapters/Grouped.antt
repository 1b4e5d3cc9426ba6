-- ===== src/Adapters/Grouped.antt =====
-- What the file of an adapter is grouped into: each tensor that is named is a half of its target.
use edge.Base.{
  ℕ, ◌≡◌, refl, ◌∙◌, sym, ap, subst, List, [], ◌∷◌, ◌++◌, map, Option, none, some, Bool, true,
  false, ◌&&◌, ◌||◌, arith, Option-cases, Bool-cases, inl, inr, if_true, elim_some, if◌then◌else◌,
  length, leb, ◌-◌, ◌≤◌, length-append, take-append, drop-append,
}
use edge.Server.Text.{Text, codes, same}
use edge.Server.Text.Laws.{same→eq, same_self}
use edge.Registry.{find}
use edge.Server.Text.Member.{has}
use edge.Adapters.{
  Halves, Half, half_a, half_b, without, target_of, with_half, add_half, group_targets,
  insert_target, sort_targets,
}

unfoldable pub is_some {ℓ} : {A : Type ℓ} → Option A → Bool
is_some none = false
is_some (some a) = true

module _ {T : Type 0} where
  -- The entry has the half.
  unfoldable pub held : Option (Halves T) → Half → Bool
  unfolding is_some
  held none h = false
  held (some p) half_a = is_some p.a
  held (some p) half_b = is_some p.b

  held-with_half :
      (h h' : Half) (v : T) (p : Halves T)
      → held (some p) h ≡ true
      → held (some (with_half h' v p)) h ≡ true
  unfolding held with_half is_some
  held-with_half half_a half_a v p e = refl
  held-with_half half_a half_b v p e = e
  held-with_half half_b half_a v p e = e
  held-with_half half_b half_b v p e = refl

  held-with_half_same : (h : Half) (v : T) (p : Halves T) → held (some (with_half h v p)) h ≡ true
  unfolding held with_half is_some
  held-with_half_same half_a v p = refl
  held-with_half_same half_b v p = refl

  add_half-held :
      (t : Text) (h : Half) (v : T) (targets : List (Text × Halves T))
      → held (find t (add_half t h v targets)) h ≡ true
  unfolding find add_half
  add_half-held t h v [] =
      ap (λ o. held o h) (if_true _ _ (same t t) (same_self t))
      ∙ held-with_half_same h v (record { a = none; b = none })
  add_half-held t h v ((u, p) ∷ targets) =
      let rest = add_half-held t h v targets in
      elim (Bool-cases (same u t)) [
        | inl here ↦ rw (here, here) (held-with_half_same h v p)
        | inr there ↦ rw (there, there) rest
      ]

  add_half-keeps :
      (t : Text) (h : Half) (u : Text) (h' : Half) (v : T) (targets : List (Text × Halves T))
      → held (find t targets) h ≡ true
      → held (find t (add_half u h' v targets)) h ≡ true
  unfolding find add_half held
  add_half-keeps t h u h' v [] e = absurd (ground arith)
  add_half-keeps t h u h' v ((x, p) ∷ targets) e =
      let rest = add_half-keeps t h u h' v targets in
      ground (arith, rest, held-with_half h h' v p, Bool-cases (same x u), Bool-cases (same x t))

  -- The names of the tensors of a file.
  abbrev pub names : List (Text × T) → List Text
  names = map (λ (e : Text × T). e.0)

  group_targets-keeps :
      (t : Text) (h : Half) (file : List (Text × T)) (targets result : List (Text × Halves T))
      → group_targets file targets ≡ some result
      → held (find t targets) h ≡ true
      → held (find t result) h ≡ true
  unfolding group_targets
  group_targets-keeps t h [] targets result e k = ground (arith)
  group_targets-keeps t h ((n, v) ∷ file) targets result e k = elim (Option-cases (target_of n)) [
    | inl bad ↦ absurd (ground (arith, bad))
    | inr ((u, h'), good) ↦
        group_targets-keeps t h file (add_half u h' v targets) result
          (sym (
              elim_some none (λ q. group_targets file (add_half q.0 q.1 v targets)) (target_of n)
                (u, h') good)
            ∙ e)
          (add_half-keeps t h u h' v targets k)
  ]

  abbrev AtTarget : List (Text × Halves T) → Option (Text × Half) → Type 0
  AtTarget result none = Unit
  AtTarget result (some (t, h)) = held (find t result) h ≡ true

  -- The half of each tensor that is named is held by its target.
  pub group_targets-held :
      (k t : Text) (h : Half) (file : List (Text × T)) (targets result : List (Text × Halves T))
      → target_of k ≡ some (t, h)
      → group_targets file targets ≡ some result
      → has k (names file) ≡ true
      → held (find t result) h ≡ true
  unfolding group_targets has
  group_targets-held k t h [] targets result named e m = absurd (ground arith)
  group_targets-held k t h ((n, v) ∷ file) targets result named e m =
      elim (Option-cases (target_of n)) [
        | inl bad ↦ absurd (ground (arith, bad))
        | inr ((u, h'), good) ↦
            let next =
              sym (
                elim_some none (λ q. group_targets file (add_half q.0 q.1 v targets)) (target_of n)
                  (u, h') good)
              ∙ e in
            elim (Bool-cases (same n k)) [
              | inl here ↦
                  let eq = sym named ∙ (ap target_of (sym (same→eq n k here)) ∙ good) in
                  subst (AtTarget result) (sym eq) (
                    group_targets-keeps u h' file (add_half u h' v targets) result next
                      (add_half-held u h' v targets))
              | inr there ↦
                  group_targets-held k t h file (add_half u h' v targets) result named next
                    (ground (arith, there))
            ]
      ]

  -- The list has an entry of the target with both halves.
  unfoldable pub complete : Text → List (Text × Halves T) → Bool
  unfolding held same
  complete t [] = false
  complete t ((u, p) ∷ targets) =
      (same u t && (held (some p) half_a && held (some p) half_b)) || complete t targets

  pub find-complete :
      (t : Text) (targets : List (Text × Halves T))
      → held (find t targets) half_a ≡ true
      → held (find t targets) half_b ≡ true
      → complete t targets ≡ true
  unfolding find complete held
  find-complete t [] a b = absurd (ground arith)
  find-complete t ((u, p) ∷ targets) a b =
      let rest = find-complete t targets in ground (arith, rest, Bool-cases (same u t))

  complete-insert_target :
      (t u : Text) (p : Halves T) (targets : List (Text × Halves T))
      → complete t (insert_target (u, p) targets) ≡ complete t ((u, p) ∷ targets)
  unfolding complete insert_target
  complete-insert_target t u p [] = refl
  complete-insert_target t u p ((x, q) ∷ targets) =
      ground (arith, complete-insert_target t u p targets)

  pub complete-sort_targets :
      (t : Text) (targets : List (Text × Halves T))
      → complete t (sort_targets targets) ≡ complete t targets
  unfolding complete sort_targets
  complete-sort_targets t [] = refl
  complete-sort_targets t ((u, p) ∷ targets) =
      complete-insert_target t u p (sort_targets targets)
      ∙ ground (arith, complete-sort_targets t targets)

leb_of_le : (a b : ℕ) → a ≤ b → leb a b ≡ true
leb_of_le a b h = ground arith

without-append :
    (suffix t u : Text)
    → length u ≡ length suffix
    → without suffix (t ++ u) ≡ (if same u suffix then some t else none)
unfolding without
without-append suffix t u h =
    let whole = length-append t u in
    let n : length (t ++ u) - length suffix ≡ length t = omega (arith, whole, h) in
    rw
      (
        n,
        drop-append (length t) t u refl,
        take-append (length t) t u refl,
        leb_of_le (length suffix) (length (t ++ u)) (omega (arith, whole, h)),
      )
      refl

pub target_of_a : (t : Text) → target_of (t ++ codes ".lora_A") ≡ some (t, half_a)
unfolding target_of same
target_of_a t = rw (without-append (codes ".lora_A") t (codes ".lora_A") refl, target_of) refl

pub target_of_b : (t : Text) → target_of (t ++ codes ".lora_B") ≡ some (t, half_b)
unfolding target_of same
target_of_b t =
    rw
      (
        without-append (codes ".lora_A") t (codes ".lora_B") refl,
        without-append (codes ".lora_B") t (codes ".lora_B") refl,
        target_of,
      )
      refl
