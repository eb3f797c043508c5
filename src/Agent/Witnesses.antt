-- ===== src/Agent/Witnesses.antt =====
-- The theorems on the agent runtime (crates/aios-agent/src/lib.rs) at concrete inputs.
use ai_os.Prelude.{ℕ, suc, ◌≡◌, refl, List, [], ◌∷◌, Option, none, some, ok, returns}
use ai_os.Core.State.{queued}
use ai_os.Core.Text.{codes}
use ai_os.Core.Task.{TaskSpec, write, deny}
use ai_os.Runtime.Event.{EventStore}
use ai_os.Runtime.Event.Memory
use ai_os.Runtime.Event.Memory.{InMemoryEventStore}
use ai_os.Runtime.Event.Memory.Laws.{in_memory_store}
use ai_os.Runtime.Supervisor.Tasks.{fresh}
use ai_os.Runtime.Execution.{Adapter, new_gate}
use ai_os.Adapters.Tool.{ToolHandler}
use ai_os.Adapters.Network
use ai_os.Adapters.Network.{TcpExchangeOperation, TcpExchangeResponse, NetworkAdapterError}
use ai_os.Agent.Decision.{ModelDecision, finish_with, scripted}
use ai_os.Agent.{
  AgentRunOutcome, tool_adapter_pending, Driven, Supply, default_config, new, require_pending,
}
use ai_os.Agent.Loop.{Method}
use ai_os.Agent.Methods.{start, approve_and_resume}
use ai_os.Agent.Termination.{methods_end}
use ai_os.Agent.Outcomes.{AllTold, start-AllTold, approve_and_resume-AllTold}

abbrev memory : EventStore InMemoryEventStore
memory = in_memory_store (λ _ _. 0)

abbrev counting : ToolHandler ℕ
counting = record { execute_for_task = λ n _ _. returns (record { bytes = n ∷ [] }) (suc n) }

-- A network adapter that answers with what it is sent.
abbrev echo : Adapter ℕ TcpExchangeOperation TcpExchangeResponse NetworkAdapterError
echo = record {
  capability_request = Network.capability_request;
  execute = λ n operation. returns (record { bytes = operation.request }) n;
}

abbrev steady : Supply
steady = record { clock = λ n. 5; identifier = λ n. n }

abbrev spec : TaskSpec
spec = record {
  idempotency_key = codes "key";
  goal = codes "sum";
  capabilities = record {
    filesystem = (record { path = codes "/work"; access = write }) ∷ [];
    network = deny;
    tools = [];
  };
  budget = record { wall_time_seconds = 60; memory_bytes = 1024; max_parallel_agents = 1 };
  approval = record { required_for = codes "filesystem.write" ∷ [] };
}

-- An agent whose model finishes at once, and a task in the queue.
abbrev State : Type 0
State = Driven InMemoryEventStore (Option (List ModelDecision)) (List ModelDecision) ℕ ℕ

abbrev ready : State
ready = record {
  runtime =
      new (some (finish_with (record { text = codes "done" }) ∷ [])) (record { definitions = [] })
        (new_gate (record { definitions = []; handlers = [] })) default_config;
  supervisor = record (fresh Memory.default 10) {
    tasks = (1, record { spec = spec; state = queued; started_at = none }) ∷ [];
  };
  tick = 0;
}

-- The same agent, with a session that waits for the approval 7.
abbrev waiting : State
waiting = record ready {
  runtime = record ready.runtime {
    active = some (record {
      task_id = 1;
      model = [];
      next_step = 2;
      previous_operation_output = none;
      pending_approval = some (record { approval_id = 7; adapter = tool_adapter_pending });
    });
  };
}

methods_end_example :
    ((r : Method State AgentRunOutcome) × (start memory scripted counting echo steady ready 1
        ≡ some r))
    × ((r : Method State AgentRunOutcome) × (approve_and_resume memory scripted counting echo steady
            ready 7
          ≡ some r))
methods_end_example = methods_end memory scripted counting echo steady ready 1 7

start-AllTold_example :
    AllTold memory scripted counting echo steady 1
      (start memory scripted counting echo steady ready 1)
start-AllTold_example = start-AllTold memory scripted counting echo steady ready 1

pending : require_pending waiting.runtime 7 ≡ ok (1, tool_adapter_pending)
unfolding require_pending
pending = refl

approve_and_resume-AllTold_example :
    AllTold memory scripted counting echo steady 1
      (approve_and_resume memory scripted counting echo steady waiting 7)
approve_and_resume-AllTold_example =
    approve_and_resume-AllTold memory scripted counting echo steady waiting 7 1 tool_adapter_pending
      pending
