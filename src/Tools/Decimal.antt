-- ===== src/Tools/Decimal.antt =====
-- Python's decimal form of a number, as the tools put it into names.
pub mod Reading
use edge.Base.{ℕ, zero, suc, ◌+◌, ◌/◌, ◌%◌, [], ◌∷◌, if◌then◌else◌, ltb}
use edge.Server.Text.{Text}

-- The digits of a number before `rest`; a number has at most itself plus one.
unfoldable pub digits_onto : (fuel n : ℕ) → Text → Text
digits_onto zero n rest = rest
digits_onto (suc fuel) n rest =
    let more = digits_onto fuel (n / 10) ((48 + n % 10) ∷ rest) in
    if ltb n 10 then (48 + n) ∷ rest else more

-- `f"{n}"`
unfoldable pub decimal : ℕ → Text
unfolding digits_onto
decimal n = digits_onto (suc n) n []
