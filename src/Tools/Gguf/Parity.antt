-- ===== src/Tools/Gguf/Parity.antt =====
-- The two sides of the parity check give the same values.
use Prim.Native.Nat.{bit_or}
use edge.Base.{
  ℕ, zero, suc, ◌+◌, ◌*◌, ◌/◌, ◌%◌, ◌==◌, ◌<◌, ◌≡◌, refl, sym, ap, subst, ◌∙◌, inl, inr, List, [],
  ◌∷◌, ◌++◌, map, Bool, true, false, ◌&&◌, arith, Bool-cases, length, take, drop, length-take,
  length-drop, take_of_length-le, take-append-drop,
}
use edge.Tools.Gguf.{
  Numbers, nibbles, mlx_q_bytes, pack_pairs, all_zero, pack_block, breaches, is_malign, deq_block,
}

-- Over a small range every value is checked by evaluation.
unfoldable below : ℕ → (ℕ → Bool) → Bool
below zero p = true
below (suc n) p = p n && below n p

below_sound : (n : ℕ) (p : ℕ → Bool) (x : ℕ) → below n p ≡ true → x < n → p x ≡ true
unfolding below
below_sound zero p x h lt = absurd (omega (arith, lt))
below_sound (suc n) p x h lt = ground (arith, below_sound n p x)

pair_table : below 256 (λ x. bit_or (x % 16) (x / 16 * 16 % 256) == x) ≡ true
unfolding below
pair_table = refl

-- Two codes are kept apart in a byte.
bit_or_pair : (l h : ℕ) → l < 16 → h < 16 → bit_or l (h * 16 % 256) ≡ l + 16 * h
bit_or_pair l h small_l small_h =
    let x = l + 16 * h in
    let low : x % 16 ≡ l = omega (arith, small_l) in
    let high : x / 16 ≡ h = omega (arith, small_l) in
    let checked : bit_or (x % 16) (x / 16 * 16 % 256) ≡ x = ground (
      arith,
      below_sound 256 (λ y. bit_or (y % 16) (y / 16 * 16 % 256) == y) x pair_table
          (omega (arith, small_l, small_h)),
    ) in
    sym (ap (λ k. bit_or k (x / 16 * 16 % 256)) low ∙ ap (λ k. bit_or l (k * 16 % 256)) high)
    ∙ checked

abbrev pub AreCodes : List ℕ → Type 0
AreCodes [] = Unit
AreCodes (c ∷ cs) = (c < 16) × AreCodes cs

pub take-AreCodes : (n : ℕ) (q : List ℕ) → AreCodes q → AreCodes (take n q)
take-AreCodes zero q h = tt
take-AreCodes (suc n) [] h = tt
take-AreCodes (suc n) (c ∷ cs) h = (h.0, take-AreCodes n cs h.1)

pub drop-AreCodes : (n : ℕ) (q : List ℕ) → AreCodes q → AreCodes (drop n q)
drop-AreCodes zero q h = h
drop-AreCodes (suc n) [] h = tt
drop-AreCodes (suc n) (c ∷ cs) h = drop-AreCodes n cs h.1

nibbles-AreCodes : (n word : ℕ) (rest : List ℕ) → AreCodes rest → AreCodes (nibbles n word ++ rest)
unfolding nibbles
nibbles-AreCodes zero word rest h = h
nibbles-AreCodes (suc n) word rest h = (omega arith, nibbles-AreCodes n (word / 16) rest h)

pub mlx_q_bytes-AreCodes : (words : List ℕ) → AreCodes (mlx_q_bytes words)
unfolding mlx_q_bytes
mlx_q_bytes-AreCodes [] = tt
mlx_q_bytes-AreCodes (word ∷ words) =
    nibbles-AreCodes 8 word (mlx_q_bytes words) (mlx_q_bytes-AreCodes words)

-- What the bytes of a block hold is the codes.
low_codes :
    {A : Type 0} (f : ℕ → A) (low high : List ℕ)
    → AreCodes low
    → AreCodes high
    → length low ≡ length high
    → map (λ (x : ℕ). f (x % 16)) (pack_pairs low high) ≡ map f low
unfolding pack_pairs
low_codes f [] high a b e = refl
low_codes f (l ∷ low) [] a b e = absurd (omega (arith, e))
low_codes f (l ∷ low) (h ∷ high) a b e =
    let code : bit_or l (h * 16 % 256) % 16 ≡ l = omega (arith, bit_or_pair l h a.0 b.0, a.0) in
    rw (code, low_codes f low high a.1 b.1 (omega (arith, e))) refl

high_codes :
    {A : Type 0} (f : ℕ → A) (low high : List ℕ)
    → AreCodes low
    → AreCodes high
    → length low ≡ length high
    → map (λ (x : ℕ). f (x / 16)) (pack_pairs low high) ≡ map f high
unfolding pack_pairs
high_codes f [] [] a b e = refl
high_codes f [] (h ∷ high) a b e = absurd (omega (arith, e))
high_codes f (l ∷ low) [] a b e = absurd (omega (arith, e))
high_codes f (l ∷ low) (h ∷ high) a b e =
    let code : bit_or l (h * 16 % 256) / 16 ≡ h = omega (arith, bit_or_pair l h a.0 b.0, a.0) in
    rw (code, high_codes f low high a.1 b.1 (omega (arith, e))) refl

pub map-append : {A : Type 0} (f : ℕ → A) (xs ys : List ℕ) → map f (xs ++ ys) ≡ map f xs ++ map f ys
map-append f [] ys = refl
map-append f (x ∷ xs) ys = ap (λ l. f x ∷ l) (map-append f xs ys)

module _ {F H : Type 0} (num : Numbers F H) where
  -- A value that the 16-bit format keeps, as a value, is kept as a float.
  abbrev pub IsExact : Type 0
  IsExact =
      (x : F)
      → num.same_value (num.of_half (num.to_half x)) x ≡ true
      → num.of_half (num.to_half x) ≡ x

  -- The scale is a number, which the 16-bit format does not make infinite: times zero it is what it was.
  abbrev pub AreMild : List F → Type 0
  AreMild [] = Unit
  AreMild (s ∷ scales) =
      (num.is_nan s ≡ false)
      × (num.mul (num.of_code 0) (num.of_half (num.to_half s)) ≡ num.mul (num.of_code 0) s)
      × AreMild scales

  abbrev pub AreNumbers : List F → Type 0
  AreNumbers [] = Unit
  AreNumbers (b ∷ biases) = (num.is_nan b ≡ false) × AreNumbers biases

  -- The value of a code with a scale and a bias.
  abbrev pub value : (s b : F) → ℕ → F
  value s b c = num.add (num.mul (num.of_code c) s) b

  abbrev pub half_value : (s b : F) → ℕ → F
  half_value s b = value (num.of_half (num.to_half s)) (num.of_half (num.to_half b))

  pub deq_block-pack_block :
      (s b : F) (q : List ℕ)
      → AreCodes q
      → length q ≡ 32
      → deq_block num (pack_block num s b q) ≡ map (half_value s b) q
  unfolding deq_block pack_block
  deq_block-pack_block s b q codes size =
      let low = take 16 q in
      let high = take 16 (drop 16 q) in
      let codes_low = take-AreCodes 16 q codes in
      let codes_high = take-AreCodes 16 (drop 16 q) (drop-AreCodes 16 q codes) in
      let even : length low ≡ length high =
        omega (arith, length-take 16 q, length-take 16 (drop 16 q), length-drop 16 q, size) in
      let rest : high ≡ drop 16 q =
        take_of_length-le 16 (drop 16 q) (omega (arith, length-drop 16 q, size)) in
      ap (λ l. l ++ map (λ (x : ℕ). half_value s b (x / 16)) (pack_pairs low high))
        (low_codes (half_value s b) low high codes_low codes_high even)
      ∙ ap (λ l. map (half_value s b) low ++ l)
          (high_codes (half_value s b) low high codes_low codes_high even)
      ∙ sym (map-append (half_value s b) low high)
      ∙ ap (map (half_value s b)) (ap (λ l. low ++ l) rest ∙ take-append-drop 16 q)

  exact_unless-breaches :
      (x : F)
      → IsExact
      → num.is_nan x ≡ false
      → breaches num x ≡ false
      → num.of_half (num.to_half x) ≡ x
  unfolding breaches
  exact_unless-breaches x exact number kept = exact x (ground (arith, number, kept))

  zeros-value :
      (s b : F) (q : List ℕ)
      → num.mul (num.of_code 0) (num.of_half (num.to_half s)) ≡ num.mul (num.of_code 0) s
      → num.of_half (num.to_half b) ≡ b
      → all_zero q ≡ true
      → map (half_value s b) q ≡ map (value s b) q
  unfolding all_zero
  zeros-value s b [] mild same_b z = refl
  zeros-value s b (c ∷ cs) mild same_b z =
      let zero_code : c ≡ 0 = ground (arith, z) in
      let head : half_value s b c ≡ value s b c =
        subst (λ x. half_value s b x ≡ value s b x) (sym zero_code)
          (ap (λ t. num.add t (num.of_half (num.to_half b))) mild
            ∙ ap (num.add (num.mul (num.of_code 0) s)) same_b) in
      rw (head, zeros-value s b cs mild same_b (ground (arith, z))) refl

  -- A group that is not on the list has the values of the checkpoint.
  pub group-value :
      (s b : F) (q : List ℕ)
      → IsExact
      → num.is_nan s ≡ false
      → num.is_nan b ≡ false
      → num.mul (num.of_code 0) (num.of_half (num.to_half s)) ≡ num.mul (num.of_code 0) s
      → is_malign num s b q ≡ false
      → map (half_value s b) q ≡ map (value s b) q
  unfolding is_malign
  group-value s b q exact number_s number_b mild fine =
      let same_b = exact_unless-breaches b exact number_b (ground (arith, fine)) in
      elim (Bool-cases (all_zero q)) [
        | inl z ↦ zeros-value s b q mild same_b z
        | inr nonzero ↦
            let same_s = exact_unless-breaches s exact number_s (ground (arith, fine, nonzero)) in
            ap (λ t. map (value t (num.of_half (num.to_half b))) q) same_s
            ∙ ap (λ t. map (value s t) q) same_b
      ]
