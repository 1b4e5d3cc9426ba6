-- ===== src/GgufExamples.antt =====
-- The theorems of the tools for GGUF files applied to small blocks, files and indices.
use edge.Base.{
  ℕ, ◌+◌, ◌*◌, ◌≤◌, ◌≡◌, refl, List, [], ◌∷◌, some, true, false, arith, replicate, length, ◌==◌,
  ◌%◌,
}
use edge.Server.Text.{codes, same}
use edge.Registry.{find}
use edge.Tools.Gguf.{Numbers, Block, pack_q41_row}
use edge.Tools.Gguf.Rows.{AgreesRow, pack_q41_row-AgreesRow}
use edge.Tools.Gguf.Writer.{
  GgufWriter, new_writer, Tensor, header_bytes, joined_bytes, pad_of, write_container,
}
use edge.Tools.Gguf.Plan.{
  StIndex, Planned, keys_of, kind_f16, kind_q41, classify, classify_names, verdict, add_verdict,
  insert_planned, quantized, by_dtype, endswith, is_external, base_of,
}
use edge.Tools.Gguf.Plan.Shaped.{AreShaped}
use edge.Tools.Gguf.Plan.Accounted.{IsAccounted, classify-IsAccounted}
use edge.Tools.R3.{build_name_table, load_ba}
use edge.Tools.R3.Distinct.{names_of, all_distinct, all_distinct-build_name_table}
use edge.Tools.R3.Interleaved.{HasGroup, load_ba-HasGroup}
use edge.Server.Text.{cut}
use edge.Tools.Gguf.Stored.{recs_from, AreStored}
use edge.Tools.Gguf.Header.{read_header, header_of, write_container-read_header}

-- Whole numbers in the place of both formats.
abbrev whole : Numbers ℕ ℕ
whole = record {
  to_half = λ x. x;
  of_half = λ x. x;
  same_value = λ x y. x == y;
  is_nan = λ x. false;
  of_code = λ c. c;
  mul = λ x y. x * y;
  add = λ x y. x + y;
}

pack_q41_row-AgreesRow_example :
    (blocks : List (Block ℕ)) × (exempt : List ℕ) × (pack_q41_row whole
        (replicate 64 5)
        (3 ∷ [])
        (7 ∷ [])
      ≡ some (blocks, exempt))
    × AgreesRow whole exempt 0 (replicate 64 5) (3 ∷ []) (7 ∷ []) blocks
pack_q41_row-AgreesRow_example =
    pack_q41_row-AgreesRow whole (replicate 64 5) (3 ∷ []) (7 ∷ []) (λ x h. refl) (refl, refl, tt)
      (refl, tt) (omega arith) refl refl

abbrev tensors : List Tensor
tensors =
    record { name = codes "a"; tt = 3; dims_ne = 32 ∷ []; size = 20; payload = replicate 20 9 }
    ∷ record { name = codes "z"; tt = 0; dims_ne = 1 ∷ []; size = 4; payload = replicate 4 8 }
    ∷ []

write_container-read_header_example :
    (ds : ℕ) × (done : GgufWriter) × (write_container tensors
        (record new_writer { kvs = (1 ∷ 2 ∷ []) ∷ [] })
      ≡ some (ds, done))
    × (ds % 32 ≡ 0)
    × (length (header_bytes done) ≤ ds)
    × (read_header 2 done.file ≡ header_of ((1 ∷ 2 ∷ []) ∷ []) (recs_from 0 tensors))
    × AreStored done.file ds (recs_from 0 tensors) tensors
unfolding joined_bytes pad_of
write_container-read_header_example =
    write_container-read_header ((1 ∷ 2 ∷ []) ∷ []) tensors (refl, (refl, tt)) (omega arith)
      (omega arith)
      (
        (omega arith, omega arith, (omega arith, tt), omega arith, omega arith),
        ((omega arith, omega arith, (omega arith, tt), omega arith, omega arith), tt),
      )

abbrev st_index : StIndex
st_index =
    (codes "x.weight", record { dtype = codes "U32"; shape = 3 ∷ 8 ∷ [] })
    ∷ (codes "x.scales", record { dtype = codes "BF16"; shape = 3 ∷ 1 ∷ [] })
    ∷ (codes "x.biases", record { dtype = codes "BF16"; shape = 3 ∷ 1 ∷ [] })
    ∷ (codes "lora_a", record { dtype = codes "F32"; shape = 4 ∷ [] })
    ∷ (codes "norm", record { dtype = codes "F16"; shape = 4 ∷ [] })
    ∷ []

abbrev plan_of_st : List Planned
plan_of_st =
    record { kind = kind_f16; weight_name = codes "norm"; base = codes "norm" }
    ∷ record { kind = kind_q41; weight_name = codes "x.weight"; base = codes "x" }
    ∷ []

classify-st_index : classify st_index ≡ some (plan_of_st, codes "lora_a" ∷ [])
unfolding endswith is_external base_of classify classify_names verdict add_verdict insert_planned
    find same quantized by_dtype cut
classify-st_index = refl

classify-IsAccounted_example :
    IsAccounted st_index (codes "norm") (keys_of st_index) (plan_of_st, codes "lora_a" ∷ [])
    × AreShaped st_index plan_of_st
classify-IsAccounted_example =
    classify-IsAccounted st_index (codes "norm") plan_of_st (codes "lora_a" ∷ []) classify-st_index

all_distinct-build_name_table_example : all_distinct (names_of (build_name_table 2 4)) ≡ true
all_distinct-build_name_table_example = all_distinct-build_name_table 2 4

load_ba-HasGroup_example :
    (rows : List ℕ) × (load_ba (1 ∷ 2 ∷ 3 ∷ 4 ∷ []) (5 ∷ 6 ∷ 7 ∷ 8 ∷ []) 2 ≡ some rows)
    × (length rows ≡ 8)
    × HasGroup (1 ∷ 2 ∷ 3 ∷ 4 ∷ []) (5 ∷ 6 ∷ 7 ∷ 8 ∷ []) rows 0 1
load_ba-HasGroup_example =
    load_ba-HasGroup (1 ∷ 2 ∷ 3 ∷ 4 ∷ []) (5 ∷ 6 ∷ 7 ∷ 8 ∷ []) 2 1 refl refl (omega arith)
