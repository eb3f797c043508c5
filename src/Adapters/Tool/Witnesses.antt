-- ===== src/Adapters/Tool/Witnesses.antt =====
-- The theorems on the tool adapter (crates/aios-adapter-tool/src/lib.rs) at concrete inputs.
use ai_os.Prelude.{
  ℕ, suc, ◌<◌, ◌≡◌, ◌↔◌, ◌⊎◌, refl, [], ◌∷◌, some, none, get, insert, ok, returns, fails, state_of,
}
use ai_os.Core.Text.{codes, byte_len, is_ascii_alphanumeric}
use ai_os.Runtime.Supervisor.{text_ord}
use ai_os.Runtime.Supervisor.Tasks.{TaskExecutionContext, remaining_wall_time}
use ai_os.Adapters.Tool.{
  ToolOperation, ToolHandler, ToolCatalog, ToolAdapterBuilder, ToolAdapter, budget_exceeded,
  is_valid_identifier, validate_arguments, prepare, new, register, build, call_handler, execute,
}
use ai_os.Adapters.Tool.Arguments.{IsWithinLimits, validate_arguments_iff}
use ai_os.Adapters.Tool.Registered.{on_new, on_register, on_build, Serves, prepare-execute}

validate_arguments_iff_example :
    (validate_arguments (codes "a" ∷ codes "b c" ∷ []) ≡ ok tt)
    ↔ IsWithinLimits (codes "a" ∷ codes "b c" ∷ [])
validate_arguments_iff_example = validate_arguments_iff (codes "a" ∷ codes "b c" ∷ [])

-- Handlers that count their calls.
abbrev counting : ToolHandler ℕ
counting = record { execute_for_task = λ n _ _. returns (record { bytes = n ∷ [] }) (suc n) }

abbrev no_routes : ToolAdapterBuilder ℕ
no_routes = record { definitions = []; handlers = []; max_routes = 4 }

abbrev one_route : ToolAdapterBuilder ℕ
one_route = state_of (register no_routes (codes "r") (codes "t") (codes "a") 7)

abbrev context : TaskExecutionContext
context = record {
  task_id = 1;
  budget = record { wall_time_seconds = 60; memory_bytes = 1024; max_parallel_agents = 1 };
  filesystem_capabilities = [];
  started_at = 5;
}

abbrev prepared : ToolOperation
prepared = record {
  route = codes "r";
  capability_tool = codes "t";
  action = codes "a";
  arguments = codes "x" ∷ [];
  execution_context = none;
}

abbrev catalog : ToolCatalog
catalog = (build one_route).0

abbrev adapter : ToolAdapter ℕ
adapter = (build one_route).1.adapter

serves : Serves counting catalog adapter
unfolding new
serves =
    on_build one_route
      (on_register no_routes (on_new 4 no_routes refl) (codes "r") (codes "t") (codes "a") 7)

prepares : prepare catalog (codes "r") (codes "x" ∷ []) ≡ ok prepared
unfolding prepare build register is_valid_identifier byte_len is_ascii_alphanumeric get insert
prepares = refl

prepare-execute_example :
    ((remaining_wall_time context 9 ≡ 0)
      × (execute counting 9 adapter (record prepared { execution_context = some context })
          ≡ fails budget_exceeded adapter))
    ⊎ ((handler : ℕ) × (0 < remaining_wall_time context 9)
        × (get (codes "r") adapter.handlers ≡ some handler)
        × (execute counting 9 adapter (record prepared { execution_context = some context })
            ≡ call_handler counting adapter
                (record prepared { execution_context = some context })
                context
                handler))
prepare-execute_example =
    prepare-execute counting catalog adapter (codes "r") (codes "x" ∷ []) prepared context 9 serves
      prepares
