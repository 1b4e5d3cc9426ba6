-- ===== src/Server/Text/Member.antt =====
-- Whether a text is among others.
use edge.Base.{◌≡◌, refl, List, [], ◌∷◌, ◌++◌, Bool, false, ◌||◌, arith}
use edge.Server.Text.{Text, same}

-- `key in keys`
unfoldable pub has : Text → List Text → Bool
unfolding same
has t [] = false
has t (u ∷ us) = same u t || has t us

pub has-append : (t : Text) (us vs : List Text) → has t (us ++ vs) ≡ (has t us || has t vs)
unfolding has
has-append t [] vs = refl
has-append t (u ∷ us) vs = ground (arith, has-append t us vs)
