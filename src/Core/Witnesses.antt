-- ===== src/Core/Witnesses.antt =====
-- The theorems on crates/aios-core at concrete inputs.
use ai_os.Prelude.{◌≡◌, ◌≢◌, refl, ◌↔◌, List, [], ◌∷◌, ◌++◌, true, All, ok}
use ai_os.Core.State.{queued, running, cancelled, succeeded, can_transition_to}
use ai_os.Core.State.Lifecycle.{Step, can_transition_to_iff, run, run_terminal}
use ai_os.Core.Text.{Text, codes, split, byte_len}
use ai_os.Core.Task.{TaskSpec, read, deny, is_normalized_absolute_path, validate}
use ai_os.Core.Task.Paths.{IsPlainName}
use ai_os.Core.Task.Validity.{IsValidSpec, validate_iff}
use ai_os.Core.Policy.{
  CapabilityRequest, file, allowed, denied, approval_required, invalid_request,
  capability_not_granted, DenialReason, CapabilityPolicy, evaluate, evaluate_file, finish,
  path_is_within,
}
use ai_os.Core.Policy.Components.{components, Covers, path_is_within_iff}
use ai_os.Core.Policy.Decisions.{
  Some, IsWellFormed, Grants, NeedsApproval, evaluate_allowed_iff, evaluate_approval_required_iff,
  evaluate_denied_iff, evaluate-file_confined,
}

abbrev spec : TaskSpec
spec = record {
  idempotency_key = codes "key";
  goal = codes "sum";
  capabilities = record {
    filesystem = (record { path = codes "/work"; access = read }) ∷ [];
    network = deny;
    tools = [];
  };
  budget = record { wall_time_seconds = 60; memory_bytes = 1024; max_parallel_agents = 1 };
  approval = record { required_for = [] };
}

abbrev policy : CapabilityPolicy
policy = record { task = spec }

abbrev reading : CapabilityRequest
reading = file (codes "/work/a") read

can_transition_to_iff_example : (can_transition_to queued running ≡ true) ↔ Step queued running
can_transition_to_iff_example = can_transition_to_iff queued running

run_terminal_example : run succeeded (running ∷ cancelled ∷ []) ≡ succeeded
run_terminal_example = run_terminal succeeded (running ∷ cancelled ∷ []) refl

validate_iff_example : (validate spec ≡ ok tt) ↔ IsValidSpec spec
validate_iff_example = validate_iff spec

path_is_within_iff_example :
    (path_is_within (codes "/work-old") (codes "/work") ≡ true)
    ↔ Covers (codes "/work") (codes "/work-old")
path_is_within_iff_example = path_is_within_iff (codes "/work-old") (codes "/work")

evaluate_allowed_iff_example :
    (evaluate policy reading ≡ allowed)
    ↔ (IsWellFormed reading × Grants spec reading × ¬ NeedsApproval spec reading)
evaluate_allowed_iff_example = evaluate_allowed_iff policy reading

evaluate_approval_required_iff_example :
    (evaluate policy reading ≡ approval_required)
    ↔ (IsWellFormed reading × Grants spec reading × NeedsApproval spec reading)
evaluate_approval_required_iff_example = evaluate_approval_required_iff policy reading

evaluate_denied_iff_example :
    ((evaluate policy reading ≡ denied invalid_request) ↔ (¬ IsWellFormed reading))
    × ((evaluate policy reading ≡ denied capability_not_granted)
        ↔ (IsWellFormed reading × ¬ Grants spec reading))
evaluate_denied_iff_example = evaluate_denied_iff policy reading

reading_allowed : evaluate policy reading ≡ allowed
unfolding evaluate evaluate_file is_normalized_absolute_path byte_len split path_is_within finish
reading_allowed = refl

reading_not_denied : (reason : DenialReason) → evaluate policy reading ≢ denied reason
reading_not_denied reason e = cc (reading_allowed, e)

evaluate-file_confined_example :
    Some
      (λ c.
        (c.access ≡ read)
        × ((rest : List Text) × (components (codes "/work/a") ≡ components c.path ++ rest)
            × All IsPlainName rest))
      spec.capabilities.filesystem
evaluate-file_confined_example =
    evaluate-file_confined policy (codes "/work/a") read reading_not_denied
