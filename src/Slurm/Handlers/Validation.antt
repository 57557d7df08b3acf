-- ===== src/Slurm/Handlers/Validation.antt =====
-- The defaults that `SubmitJob` fills in (slurm-simulator/handlers.go).
use velo_infra_playground.Prelude.{
  String, List, [], ◌∷◌, ◌&&◌, ◌||◌, none, some, if◌then◌else◌, ◌==◌, string_Eq, ◌≡◌, refl,
}
use velo_infra_playground.Prelude.Int.{ℤ, pos, int_eq}
use velo_infra_playground.Prelude.Words.{mul64}
use velo_infra_playground.Prelude.Text.{split, contains, parse_int}
use velo_infra_playground.Slurm.Handlers.Api.{SlurmSubmitJobReq}

-- `parts[len(parts)-1]`; `strings.Split` gives one part at least.
last_part : List String → String
last_part [] = ""
last_part (p ∷ []) = p
last_part (p ∷ q ∷ ps) = last_part (q ∷ ps)

-- The GPU count at the end of e.g. "gpu:h100:2".
unfoldable pub tres_gpus : String → ℤ
unfolding last_part
tres_gpus tres =
    if tres == ""
    then pos 0
    else elim (parse_int (last_part (split b':' tres))) [ none ↦ pos 0 | some n ↦ n ]

unfoldable pub resolve_gpus : SlurmSubmitJobReq → ℤ
resolve_gpus req =
    let gpus = tres_gpus req.tres_per_node in
    if int_eq gpus (pos 0) && (contains req.script "nvidia-smi" || contains req.script "gpu")
    then pos 1
    else gpus

-- `if x == 0 { x = d }`.
abbrev pub or_default : ℤ → ℤ → ℤ
or_default x d = if int_eq x (pos 0) then d else x

-- `if s == "" { s = d }`.
abbrev pub or_text : String → String → String
or_text s d = if s == "" then d else s

unfoldable pub resolve_cpus : SlurmSubmitJobReq → ℤ
resolve_cpus req = or_default (mul64 req.tasks req.cpus_per_task) (pos 1)

unfoldable pub resolve_duration : SlurmSubmitJobReq → ℤ
resolve_duration req = or_default req.time_limit (pos 15)

unfoldable pub resolve_memory : SlurmSubmitJobReq → ℤ
resolve_memory req = or_default req.memory_per_node.number (pos 4000)

unfoldable pub resolve_partition : SlurmSubmitJobReq → String
resolve_partition req = or_text req.partition "h100-partition"

unfoldable pub resolve_name : SlurmSubmitJobReq → String
resolve_name req = or_text req.name "slurm_mock_job"

count_of_tres : tres_gpus "gres/gpu:h100:12" ≡ pos 12
unfolding tres_gpus split parse_int
count_of_tres = refl
