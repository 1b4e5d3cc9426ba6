-- ===== src/Tools/Gguf.antt =====
-- windows/tools/repack_mlx_to_gguf.py: the blocks of four-bit codes, wrapped again for another runtime.
-- The floats are a parameter. A row is the list of its codes; the masks and shifts of a code are the
-- remainder and the quotient by 16. The counters of the gate are left out.
pub mod Stored
pub mod Writer
pub mod Header
pub mod Parity
pub mod Plan
pub mod Rows
use Prim.Native.Nat.{bit_or}
use edge.Base.{
  ℕ, zero, suc, ◌+◌, ◌*◌, ◌/◌, ◌%◌, ◌==◌, List, [], ◌∷◌, ◌++◌, map, Option, none, some, Bool, true,
  false, not, ◌&&◌, ◌||◌, length, take, drop, if◌then◌else◌,
}

-- 32-bit floats `F` and 16-bit floats `H`.
pub record Numbers (F H : Type 0) : Type 0 where
  pub to_half : F → H
  pub of_half : H → F
  pub same_value : F → F → Bool
  pub is_nan : F → Bool
  pub of_code : ℕ → F
  pub mul : F → F → F
  pub add : F → F → F

-- One element of `DT_Q41`.
pub record Block (H : Type 0) : Type 0 where
  pub d : H
  pub m : H
  pub qs : List ℕ

-- The eight codes of a word, from the lowest bits on.
unfoldable pub nibbles : (n word : ℕ) → List ℕ
nibbles zero word = []
nibbles (suc n) word = word % 16 ∷ nibbles n (word / 16)

-- `mlx_q_bytes` of a row
unfoldable pub mlx_q_bytes : List ℕ → List ℕ
unfolding nibbles
mlx_q_bytes [] = []
mlx_q_bytes (word ∷ words) = nibbles 8 word ++ mlx_q_bytes words

-- `q[:16] | (q[16:] << 4)` on bytes
unfoldable pub pack_pairs : List ℕ → List ℕ → List ℕ
pack_pairs [] high = []
pack_pairs (l ∷ low) [] = []
pack_pairs (l ∷ low) (h ∷ high) = bit_or l (h * 16 % 256) ∷ pack_pairs low high

unfoldable pub all_zero : List ℕ → Bool
all_zero [] = true
all_zero (c ∷ cs) = (c == 0) && all_zero cs

module _ {F H : Type 0} (num : Numbers F H) where
  unfoldable pub pack_block : (s b : F) → List ℕ → Block H
  unfolding pack_pairs
  pack_block s b q = record {
    d = num.to_half s;
    m = num.to_half b;
    qs = pack_pairs (take 16 q) (take 16 (drop 16 q));
  }

  -- The blocks of a row: two for each group of 64, with the scale and the bias of the group.
  unfoldable pub pack_row : (q : List ℕ) → (scales biases : List F) → List (Block H)
  unfolding pack_block
  pack_row q [] biases = []
  pack_row q (s ∷ scales) [] = []
  pack_row q (s ∷ scales) (b ∷ biases) =
      pack_block s b (take 32 q)
      ∷ pack_block s b (take 32 (drop 32 q))
      ∷ pack_row (drop 64 q) scales biases

  -- Whether a value is changed by the 16-bit format.
  unfoldable pub breaches : F → Bool
  breaches x = not (num.same_value (num.of_half (num.to_half x)) x) && not (num.is_nan x)

  -- Whether the blocks of a group go on the exemption list.
  unfoldable pub is_malign : (s b : F) → (group : List ℕ) → Bool
  unfolding breaches all_zero
  is_malign s b group = (breaches s && not (all_zero group)) || breaches b

  -- The exempt blocks of a row, from group `g` on.
  unfoldable pub exempt_from : (g : ℕ) → (q : List ℕ) → (scales biases : List F) → List ℕ
  unfolding is_malign
  exempt_from g q [] biases = []
  exempt_from g q (s ∷ scales) [] = []
  exempt_from g q (s ∷ scales) (b ∷ biases) =
      let rest = exempt_from (suc g) (drop 64 q) scales biases in
      if is_malign s b (take 64 q) then 2 * g ∷ (2 * g + 1) ∷ rest else rest

  -- `pack_q41_rows` of one row; a row that is not as long as its groups raises.
  unfoldable pub pack_q41_row :
      (q : List ℕ) → (scales biases : List F) → Option (List (Block H) × List ℕ)
  unfolding pack_row exempt_from
  pack_q41_row q scales biases =
      if (length q == 64 * length scales) && (length biases == length scales)
      then some (pack_row q scales biases, exempt_from 0 q scales biases)
      else none

  -- `deq_mlx_side` of a row
  unfoldable pub deq_mlx_side : (q : List ℕ) → (scales biases : List F) → List F
  deq_mlx_side q [] biases = []
  deq_mlx_side q (s ∷ scales) [] = []
  deq_mlx_side q (s ∷ scales) (b ∷ biases) =
      map (λ (c : ℕ). num.add (num.mul (num.of_code c) s) b) (take 64 q)
      ++ deq_mlx_side (drop 64 q) scales biases

  unfoldable pub deq_block : Block H → List F
  deq_block k =
      let value =
        λ (c : ℕ). num.add (num.mul (num.of_code c) (num.of_half k.d)) (num.of_half k.m) in
      map (λ (x : ℕ). value (x % 16)) k.qs ++ map (λ (x : ℕ). value (x / 16)) k.qs

  -- `deq_gguf_side` of a row
  unfoldable pub deq_gguf_side : List (Block H) → List F
  unfolding deq_block
  deq_gguf_side [] = []
  deq_gguf_side (k ∷ ks) = deq_block k ++ deq_gguf_side ks
