-- ===== src/Tools/R3.antt =====
-- windows/tools/repack_r3.py: the names under which the tensors are stored for the runtime, and the
-- interleaving of two tensors by rows. The interval of the full attention layers is at least one; there
-- are two value heads for each key head, so that every row of the interleaved tensor is set.
pub mod Distinct
pub mod Interleaved
use edge.Base.{
  ℕ, zero, suc, ◌+◌, ◌*◌, ◌%◌, ◌==◌, List, [], ◌∷◌, ◌++◌, map, Option, none, some, Bool, true,
  false, if◌then◌else◌, get_elem?,
}
use edge.Server.Text.{Text, codes}
use edge.Tools.Decimal.{decimal}

pub data Kind : Type 0 where
  q41 : Kind
  f32raw : Kind
  ba : Kind
  conv : Kind
  sa : Kind
  f32i8 : Kind
  f32i8_1d : Kind

-- `src_key_or_pair`
pub data Key : Type 0 where
  one : Text → Key
  pair : Text → Text → Key

pub record Row : Type 0 where
  pub name : Text
  pub kind : Kind
  pub src : Key

abbrev pub row : Text → Kind → Key → Row
row name kind src = record { name = name; kind = kind; src = src }

unfoldable pub full_attn_layer : (i interval : ℕ) → Bool
full_attn_layer i interval = (i + 1) % interval == 0

-- The rows of full and of linear attention; `b` is the prefix of the source.
abbrev pub full_rows : (b : Text) → List Row
full_rows b =
    row (codes "attn_q.weight") q41 (one (b ++ codes "self_attn.q_proj.weight"))
    ∷ row (codes "attn_k.weight") q41 (one (b ++ codes "self_attn.k_proj.weight"))
    ∷ row (codes "attn_v.weight") q41 (one (b ++ codes "self_attn.v_proj.weight"))
    ∷ row (codes "attn_q_norm.weight") f32raw (one (b ++ codes "self_attn.q_norm.weight"))
    ∷ row (codes "attn_k_norm.weight") f32raw (one (b ++ codes "self_attn.k_norm.weight"))
    ∷ row (codes "attn_output.weight") q41 (one (b ++ codes "self_attn.o_proj.weight"))
    ∷ []

abbrev pub linear_rows : (la : Text) → List Row
linear_rows la =
    row (codes "attn_qkv.weight") q41 (one (la ++ codes "in_proj_qkv.weight"))
    ∷ row (codes "attn_gate.weight") q41 (one (la ++ codes "in_proj_z.weight"))
    ∷ row (codes "ssm_ba.weight") ba
        (pair (la ++ codes "in_proj_b.weight") (la ++ codes "in_proj_a.weight"))
    ∷ row (codes "ssm_conv1d.weight") conv (one (la ++ codes "conv1d.weight"))
    ∷ row (codes "ssm_dt.bias") f32raw (one (la ++ codes "dt_bias"))
    ∷ row (codes "ssm_a") sa (one (la ++ codes "A_log"))
    ∷ row (codes "ssm_norm.weight") f32raw (one (la ++ codes "norm.weight"))
    ∷ row (codes "ssm_out.weight") q41 (one (la ++ codes "out_proj.weight"))
    ∷ []

abbrev pub norm_rows : (b : Text) → List Row
norm_rows b =
    row (codes "attn_norm.weight") f32raw (one (b ++ codes "input_layernorm.weight"))
    ∷ row (codes "post_attention_norm.weight") f32raw
        (one (b ++ codes "post_attention_layernorm.weight"))
    ∷ []

abbrev pub mlp_rows : (m : Text) → List Row
mlp_rows m =
    row (codes "ffn_gate_inp.weight") f32i8 (one (m ++ codes "gate.weight"))
    ∷ row (codes "ffn_gate_exps.weight") q41 (one (m ++ codes "switch_mlp.gate_proj.weight"))
    ∷ row (codes "ffn_up_exps.weight") q41 (one (m ++ codes "switch_mlp.up_proj.weight"))
    ∷ row (codes "ffn_down_exps.weight") q41 (one (m ++ codes "switch_mlp.down_proj.weight"))
    ∷ row (codes "ffn_gate_shexp.weight") q41 (one (m ++ codes "shared_expert.gate_proj.weight"))
    ∷ row (codes "ffn_up_shexp.weight") q41 (one (m ++ codes "shared_expert.up_proj.weight"))
    ∷ row (codes "ffn_down_shexp.weight") q41 (one (m ++ codes "shared_expert.down_proj.weight"))
    ∷ row (codes "ffn_gate_inp_shexp.weight") f32i8_1d
        (one (m ++ codes "shared_expert_gate.weight"))
    ∷ []

-- `P.format(i)`
unfoldable pub source_prefix : ℕ → Text
source_prefix i = codes "language_model.model.layers." ++ (decimal i ++ codes ".")

-- The rows of a layer, without the prefix of their names.
unfoldable pub layer_rows : (i interval : ℕ) → List Row
unfolding full_attn_layer source_prefix
layer_rows i interval =
    let b = source_prefix i in
    let attention =
      if full_attn_layer i interval then full_rows b else linear_rows (b ++ codes "linear_attn.") in
    norm_rows b ++ (attention ++ mlp_rows (b ++ codes "mlp."))

-- `rb + suffix`
unfoldable pub block_name : ℕ → Text → Text
block_name i suffix = codes "blk." ++ (decimal i ++ (codes "." ++ suffix))

unfoldable pub in_block : ℕ → List Row → List Row
unfolding block_name
in_block i [] = []
in_block i (r ∷ rs) = record r { name = block_name i r.name } ∷ in_block i rs

-- The loop over the layers: `n` of them from `i` on.
unfoldable pub layers_from : (interval n i : ℕ) → List Row
unfolding layer_rows in_block
layers_from interval zero i = []
layers_from interval (suc n) i =
    in_block i (layer_rows i interval) ++ layers_from interval n (suc i)

unfoldable pub build_name_table : (nl interval : ℕ) → List Row
unfolding layers_from
build_name_table nl interval =
    row (codes "token_embd.weight") q41 (one (codes "language_model.model.embed_tokens.weight"))
    ∷ row (codes "output.weight") q41 (one (codes "language_model.lm_head.weight"))
    ∷ row (codes "output_norm.weight") f32raw (one (codes "language_model.model.norm.weight"))
    ∷ layers_from interval nl 0

pub data Tag : Type 0 where
  tag_b : Tag
  tag_a : Tag

-- The loop of `ssm_ba_perm`: `n` groups from `g` on.
unfoldable pub perm_from : (n g : ℕ) → List (Tag × ℕ)
perm_from zero g = []
perm_from (suc n) g =
    (tag_b, 2 * g) ∷ (tag_b, 2 * g + 1) ∷ (tag_a, 2 * g) ∷ (tag_a, 2 * g + 1) ∷ perm_from n (suc g)

unfoldable pub ssm_ba_perm : (n_k : ℕ) → List (Tag × ℕ)
unfolding perm_from
ssm_ba_perm n_k = perm_from n_k 0

module _ {A : Type 0} where
  unfoldable pub row_of : (b a : List A) → Tag × ℕ → Option A
  row_of b a (tag_b, i) = get_elem? b i
  row_of b a (tag_a, i) = get_elem? a i

  -- The loop of `load_ba`; a row that is not there raises.
  unfoldable pub gather : (b a : List A) → List (Tag × ℕ) → Option (List A)
  unfolding row_of
  gather b a [] = some []
  gather b a (p ∷ ps) = elim (row_of b a p) [
    | none ↦ none
    | some r ↦ elim (gather b a ps) [ none ↦ none | some rs ↦ some (r ∷ rs) ]
  ]

  -- `load_ba`, for one of the three arrays.
  unfoldable pub load_ba : (b a : List A) → (n_k : ℕ) → Option (List A)
  unfolding gather ssm_ba_perm
  load_ba b a n_k = gather b a (ssm_ba_perm n_k)
