-- ===== src/Registry/Resolved.antt =====
-- A name that is resolved has an adapter, and registering keeps what is registered.
use edge.Base.{
  ◌≡◌, refl, ◌∙◌, sym, inl, inr, [], ◌∷◌, ◌++◌, Option, none, some, if◌then◌else◌, arith,
  Option-cases, Bool-cases, subst, elim_none, elim_some,
}
use edge.Server.Text.{Text, same}
use edge.Server.Text.Laws.{same_self}
use edge.Server.Request.{Python}
use edge.Registry.{
  Names, find, type_aliases, register_model, Directory, key_of, resolve_key, resolve_name,
  adapter_of,
}

module _ {A : Type 0} where
  find-append :
      (key name : Text) (a : A) (registry : Names A)
      → find key (registry ++ (name, a) ∷ []) ≡ elim (find key registry) [
        | none ↦ (if same name key then some a else none)
        | some b ↦ some b
      ]
  unfolding find
  find-append key name a [] = refl
  find-append key name a ((k, b) ∷ registry) = ground (arith, find-append key name a registry)

  -- What a registration gives: nothing if it raises; else the new name has its adapter and every name
  -- that was registered keeps its own.
  abbrev pub IsRegistered : Names A → Text → A → Option (Names A) → Type 0
  IsRegistered registry name a none = (b : A) × (find name registry ≡ some b)
  IsRegistered registry name a (some next) =
      (find name next ≡ some a)
      × ((key : Text) (b : A) → find key registry ≡ some b → find key next ≡ some b)

  -- `register_model` raises exactly on a name that is registered; else the name has its adapter and the
  -- names before keep theirs.
  pub register_model-IsRegistered :
      (name : Text) (a : A) (registry : Names A)
      → IsRegistered registry name a (register_model name a registry)
  unfolding register_model
  register_model-IsRegistered name a registry = elim (Option-cases (find name registry)) [
    | inl free ↦
        rw (free, register_model)
          (
            find-append name name a registry ∙ rw (free, same_self name) refl,
            λ key b e. find-append key name a registry ∙ rw e refl,
          )
    | inr (b, taken) ↦ rw (taken, register_model) (b, taken)
  ]

  -- Every alias in the list names a registered model.
  abbrev pub AllRegistered : Names A → Names Text → Type 0
  AllRegistered registry [] = Unit
  AllRegistered registry ((alias, key) ∷ aliases) =
      ((a : A) × (find key registry ≡ some a)) × AllRegistered registry aliases

  find-AllRegistered :
      (registry : Names A) (aliases : Names Text) (alias key : Text)
      → AllRegistered registry aliases
      → find alias aliases ≡ some key
      → (a : A) × (find key registry ≡ some a)
  unfolding find
  find-AllRegistered registry [] alias key h e = absurd (ground arith)
  find-AllRegistered registry ((k, t) ∷ aliases) alias key h e = elim (Bool-cases (same k alias)) [
    | inl hit ↦
        let at : t ≡ key = ground (arith, e, hit) in
        subst (λ q. (a : A) × (find q registry ≡ some a)) at h.0
    | inr miss ↦ find-AllRegistered registry aliases alias key h.1 (ground (arith, e, miss))
  ]

  resolve_key-registered :
      (registry : Names A) (aliases : Names Text) (k key : Text)
      → AllRegistered registry aliases
      → resolve_key registry aliases k ≡ some key
      → (a : A) × (find key registry ≡ some a)
  unfolding resolve_key
  resolve_key-registered registry aliases k key h e = elim (Option-cases (find k registry)) [
    | inl missing ↦
        find-AllRegistered registry aliases k key h
          (sym (elim_none (find k aliases) (λ (a : A). some k) (find k registry) missing) ∙ e)
    | inr (a, known) ↦
        let at : k ≡ key = ground (
          arith,
          sym (elim_some (find k aliases) (λ (a : A). some k) (find k registry) a known) ∙ e,
        ) in
        subst (λ q. (a : A) × (find q registry ≡ some a)) at (a, known)
  ]

  resolve_name-found :
      {N : Type 0} (py : Python N) (registry : Names A) (dir : Option (Directory N))
      (name : Option Text) (key : Text)
      → AllRegistered registry type_aliases
      → resolve_name py registry dir name ≡ some key
      → (a : A) × (find key registry ≡ some a)
  unfolding resolve_name
  resolve_name-found py registry dir name key h e = elim (Option-cases (key_of py dir name)) [
    | inl missing ↦
        let never =
          sym (elim_none none (resolve_key registry type_aliases) (key_of py dir name) missing)
          ∙ e in
        absurd (ground arith)
    | inr (k, given) ↦
        resolve_key-registered registry type_aliases k key h (
          sym (elim_some none (resolve_key registry type_aliases) (key_of py dir name) k given) ∙ e)
  ]

  -- If the targets of the aliases are registered, a name that is resolved has an adapter: no lookup
  -- after `_resolve_name` fails.
  pub resolve_name-registered :
      {N : Type 0} (py : Python N) (registry : Names A) (dir : Option (Directory N))
      (name : Option Text) (key : Text)
      → AllRegistered registry type_aliases
      → resolve_name py registry dir name ≡ some key
      → (a : A) × (adapter_of py registry dir name ≡ some a)
  unfolding adapter_of
  resolve_name-registered py registry dir name key h e =
      let (a, found) = resolve_name-found py registry dir name key h e in
      (a, elim_some none (λ k. find k registry) (resolve_name py registry dir name) key e ∙ found)
