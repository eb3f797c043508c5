-- ===== src/Agent/Decision.antt =====
-- The proposals of a model in crates/aios-agent/src/lib.rs, and the limits they keep.
use ai_os.Prelude.{
  ℕ, ◌*◌, Bool, true, false, not, ◌&&◌, ◌||◌, List, [], ◌∷◌, Option, none, some, ltb, leb, nat_beq,
  nat_eq, if◌then◌else◌, length, all, contains, is_empty, checked_add, Result, ok, err, ◌>>=◌,
  Outcome, returns, fails,
}
use ai_os.Core.Text.{Text, byte_len, is_ascii_alphanumeric}
use ai_os.Core.Task.{NetworkDestination}
use ai_os.Runtime.Approval.{Duration, nanos_per_second}
use ai_os.Adapters.Tool.{
  max_arguments, max_argument_bytes, max_identifier_bytes, max_total_argument_bytes,
}
use ai_os.Adapters.Network.{max_network_host_bytes, max_tcp_request_bytes}

abbrev pub default_max_model_steps : ℕ
default_max_model_steps = 16

abbrev pub max_model_steps : ℕ
max_model_steps = 64

abbrev pub max_final_output_bytes : ℕ
max_final_output_bytes = 1048576

abbrev pub default_approval_ttl : Duration
default_approval_ttl = 5 * 60 * nanos_per_second

abbrev pub max_approval_ttl : Duration
max_approval_ttl = 15 * 60 * nanos_per_second

-- `Duration::from_millis(1)`
abbrev pub one_millisecond : Duration
one_millisecond = 1000000

-- `AgentOutput` is its text.
pub record AgentOutput : Type 0 where
  pub text : Text

-- `ModelDecisionKind`
pub data ModelDecision : Type 0 where
  finish_with : AgentOutput → ModelDecision
  call_tool_with : Text → List Text → ModelDecision
  tcp_exchange_with : Text → ℕ → List ℕ → ModelDecision

pub data ModelDecisionError : Type 0 where
  invalid_final_output invalid_tool_request invalid_network_request : ModelDecisionError

-- `AgentOutput::from_text`
unfoldable pub from_text : Text → Result ModelDecisionError AgentOutput
from_text text =
    if is_empty text || ltb max_final_output_bytes (byte_len text) || contains 0 text
    then err invalid_final_output
    else ok (record { text = text })

unfoldable pub is_valid_identifier : Text → Bool
is_valid_identifier value =
    not (is_empty value)
    && leb (byte_len value) max_identifier_bytes
    && all
        (λ c.
          is_ascii_alphanumeric c
          || nat_beq c b'.'
          || nat_beq c b'_'
          || nat_beq c b':'
          || nat_beq c b'-')
        value

-- The loop of `are_valid_arguments`.
unfoldable pub are_valid_from : ℕ → List Text → Bool
are_valid_from total_bytes [] = true
are_valid_from total_bytes (argument ∷ arguments) =
    if ltb max_argument_bytes (byte_len argument) || contains 0 argument
    then false
    else elim (checked_add total_bytes (byte_len argument)) [
      | none ↦ false
      | some next_total ↦ elim (ltb max_total_argument_bytes next_total) [
        | true ↦ false
        | false ↦ are_valid_from next_total arguments
      ]
    ]

unfoldable pub are_valid_arguments : List Text → Bool
unfolding are_valid_from
are_valid_arguments arguments =
    if ltb max_arguments (length arguments) then false else are_valid_from 0 arguments

unfoldable pub finish : Text → Result ModelDecisionError ModelDecision
unfolding from_text
finish text = from_text text >>= λ output. ok (finish_with output)

unfoldable pub call_tool : Text → List Text → Result ModelDecisionError ModelDecision
unfolding is_valid_identifier are_valid_arguments
call_tool route arguments =
    if not (is_valid_identifier route) || not (are_valid_arguments arguments)
    then err invalid_tool_request
    else ok (call_tool_with route arguments)

unfoldable pub tcp_exchange : Text → ℕ → List ℕ → Result ModelDecisionError ModelDecision
tcp_exchange host port request =
    if is_empty host
      || ltb max_network_host_bytes (byte_len host)
      || nat_beq port 0
      || ltb max_tcp_request_bytes (length request)
    then err invalid_network_request
    else ok (tcp_exchange_with host port request)

-- The traits `ModelAdapter` and `ModelSession`, for adapters `M` and sessions `Sess`. Their errors are
-- only told from success.
pub record Model (M Sess : Type 0) : Type 0 where
  pub start_session : M → Text → List Text → List NetworkDestination → Outcome M (Unit {0}) Sess
  pub decide : Sess → ℕ → Option (List ℕ) → Outcome Sess (Unit {0}) ModelDecision

-- `ScriptedModelAdapter` is its script, `ScriptedModelSession` the decisions left.
pub data ScriptedModelError : Type 0 where
  invalid_script unavailable exhausted : ScriptedModelError

unfoldable pub new_script :
    List ModelDecision → Result ScriptedModelError (Option (List ModelDecision))
new_script decisions =
    if is_empty decisions || ltb max_model_steps (length decisions)
    then err invalid_script
    else ok (some decisions)

abbrev pub scripted : Model (Option (List ModelDecision)) (List ModelDecision)
scripted = record {
  start_session = λ script _ _ _. elim script [
    | none ↦ fails tt none
    | some decisions ↦ returns decisions none
  ];
  decide = λ decisions _ _. elim decisions [
    | [] ↦ fails tt []
    | decision ∷ rest ↦ returns decision rest
  ];
}
