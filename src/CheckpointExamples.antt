-- ===== src/CheckpointExamples.antt =====
-- The theorems of the checkpoint and of the registry applied to a small file and a small registry.
use edge.Base.{
  ℕ, ◌-◌, ◌≡◌, refl, List, [], ◌∷◌, Option, none, some, Bool, true, false, ◌&&◌, ◌||◌, ◌==◌, arith,
  take, drop,
}
use edge.Server.Text.{Text, codes, same}
use edge.Server.Text.Laws.{same_self}
use edge.Server.Json.{object, no_fields}
use edge.Server.Request.{Python}
use edge.Checkpoint.{Meta, Shard, open_shard, raw, advise_willneed_range}
use edge.Checkpoint.Laws.{IsHint, advise_willneed_range-IsHint}
use edge.Checkpoint.RoundTrip.{written_shard, raw-written_shard}
use edge.Adapters.{Tree, Report, install_lora}
use edge.Server.Text.Member.{has}
use edge.Adapters.Applied.{IsDone, install_lora-IsDone}
use edge.Registry.{Names, Directory}

advise_willneed_range-IsHint_example :
    IsHint 4096 10000 5000 6000 (advise_willneed_range 4096 10000 5000 6000)
advise_willneed_range-IsHint_example = advise_willneed_range-IsHint 4095 10000 5000 6000

abbrev meta : Meta
meta = record { begin_offset = 1; end_offset = 3; dtype = codes "U8"; shape = 2 ∷ [] }

abbrev parse_header : List ℕ → Option (List (Text × Meta))
parse_header bytes = some ((codes "w", meta) ∷ [])

raw-written_shard_example :
    (shard : Shard) × (open_shard parse_header (written_shard (codes "{}") (7 ∷ 8 ∷ 9 ∷ []))
      ≡ some shard)
    × (raw shard (codes "w") ≡ some (take (3 - 1) (drop 1 (7 ∷ 8 ∷ 9 ∷ []))))
unfolding same
raw-written_shard_example =
    raw-written_shard parse_header (codes "{}") (7 ∷ 8 ∷ 9 ∷ []) (codes "w")
      ((codes "w", meta) ∷ []) meta (omega arith) refl refl refl (omega arith) (omega arith)

abbrev python : Python ℕ
python = record { nonzero = λ n. true; str_of = λ v. []; loads = λ t. none }

abbrev registry : Names ℕ
registry = (codes "edge0-8b", 8) ∷ (codes "edge0-35b", 35) ∷ []

abbrev directory : Directory ℕ
directory = record { basename = codes "bailing_hybrid"; config_json = some (object no_fields) }

-- A model in which every attribute can be read; what is bound is listed.
abbrev tree : Tree (List (ℕ × Text)) ℕ ℕ ℕ
tree = record {
  root = 0;
  attr = λ w n name. some n;
  item = λ w n place. some n;
  is_none = λ n. false;
  bind = λ w n name l. (n, name) ∷ w;
}

unfoldable is_bound : List (ℕ × Text) → ℕ → Text → Bool
unfolding same
is_bound [] owner name = false
is_bound ((o, m) ∷ w) owner name = (o == owner && same m name) || is_bound w owner name

bound_here :
    (w : List (ℕ × Text)) (owner : ℕ) (name : Text) → is_bound ((owner, name) ∷ w) owner name ≡ true
unfolding is_bound
bound_here w owner name = ground (arith, same_self name)

bound_kept :
    (w : List (ℕ × Text)) (owner owner' : ℕ) (name name' : Text)
    → is_bound w owner name ≡ true
    → is_bound ((owner', name') ∷ w) owner name ≡ true
unfolding is_bound
bound_kept w owner owner' name name' h = ground (arith, h)

abbrev pair_file : List (Text × ℕ)
pair_file = (codes "q.p.lora_B", 4) ∷ (codes "q.p.lora_A", 3) ∷ (codes "o.lora_A", 5) ∷ []

abbrev report : Report
report = record { applied = codes "q.p" ∷ []; not_found = []; skipped = codes "o" ∷ [] }

install_lora-IsDone_example :
    IsDone tree
      (λ t. t)
      32
      (λ w owner name. is_bound w owner name ≡ true)
      (λ w owner name l. bound_here w owner name)
      (λ w owner owner' name name' l. bound_kept w owner owner' name name')
      (codes "q.p")
      ((0, codes "p") ∷ [], report)
unfolding install_lora has
install_lora-IsDone_example =
    install_lora-IsDone tree (λ t. t) 32 (λ w owner name. is_bound w owner name ≡ true)
      (λ w owner name l. bound_here w owner name)
      (λ w owner owner' name name' l. bound_kept w owner owner' name name') pair_file []
      ((0, codes "p") ∷ []) report (codes "q.p") refl refl refl
