-- ===== src/Adapters/Network.antt =====
-- crates/aios-adapter-network/src/lib.rs: one bounded TCP exchange with an explicit IP address. The
-- operating system is the record `Network` over the state `W` of the world, the connected stream
-- included; the reply of a call that fails is `none`. The loops run on fuel, and without it they
-- give `none`.
pub mod Termination
pub mod Delivery
mod Witnesses
use ai_os.Prelude.{
  ℕ, ◌*◌, zero, suc, ◌+◌, ◌-◌, Bool, true, false, not, ◌&&◌, ◌||◌, List, [], ◌∷◌, ◌++◌, Option,
  none, some, ltb, leb, nat_beq, nat_eq, if◌then◌else◌, ◌==◌, list_eq, list_beq, length, drop,
  is_empty, Result, ok, err, ◌>>=◌, ok_or, Outcome, returns, fails,
}
use ai_os.Core.Text.{Text, byte_len}
use ai_os.Core.Address.{IpAddr, v4, v6, parse_ip, is_unspecified, is_multicast, is_broadcast}
use ai_os.Core.Task.{tcp}
use ai_os.Core.Policy.{CapabilityRequest, network}
use ai_os.Runtime.Event.{TaskId, ApprovalId, OperationId, EventStore}
use ai_os.Runtime.Approval.{Instant, Duration, nanos_per_second}
use ai_os.Runtime.Supervisor.Tasks.{TaskExecutionContext, execution_context, remaining_wall_time}
use ai_os.Runtime.Execution
use ai_os.Runtime.Execution.{Adapter, ExecutionOutcome, Guarded, supervisor_error, Reply}

abbrev pub max_network_host_bytes : ℕ
max_network_host_bytes = 253

abbrev pub max_tcp_request_bytes : ℕ
max_tcp_request_bytes = 65536

abbrev pub max_tcp_response_bytes : ℕ
max_tcp_response_bytes = 1048576

abbrev pub max_network_timeout : Duration
max_network_timeout = 30 * nanos_per_second

-- The length of the buffer in `read_response`.
abbrev pub buffer_len : ℕ
buffer_len = 8192

pub data NetworkAdapterError : Type 0 where
  invalid_config invalid_operation unsupported_destination scope_mismatch budget_exceeded
        connect_failed socket_configuration_failed peer_mismatch write_failed read_failed
        response_too_large :
      NetworkAdapterError

pub record TcpExchangeOperation : Type 0 where
  pub host : Text
  pub port : ℕ
  pub request : List ℕ
  pub execution_context : Option TaskExecutionContext

-- `GuardedOperation::capability_request`
unfoldable pub capability_request : TcpExchangeOperation → CapabilityRequest
capability_request operation = network operation.host tcp operation.port

pub record TcpExchangeResponse : Type 0 where
  pub bytes : List ℕ

pub record NetworkAdapter : Type 0 where
  pub timeout : Duration

unfoldable pub new : Duration → Result NetworkAdapterError NetworkAdapter
new timeout =
    if nat_beq timeout 0 || ltb max_network_timeout timeout
    then err invalid_config
    else ok (record { timeout = timeout })

unfoldable pub validate_operation : Text → ℕ → List ℕ → Result NetworkAdapterError IpAddr
validate_operation host port request =
    if is_empty host
      || ltb max_network_host_bytes (byte_len host)
      || nat_beq port 0
      || ltb max_tcp_request_bytes (length request)
    then err invalid_operation
    else ok_or (parse_ip host) unsupported_destination >>= λ ip.
        if is_unspecified ip || is_multicast ip || is_broadcast ip
        then err unsupported_destination
        else ok ip

unfoldable pub prepare_tcp_exchange :
    Text → ℕ → List ℕ → Result NetworkAdapterError TcpExchangeOperation
unfolding validate_operation
prepare_tcp_exchange host port request = validate_operation host port request >>= λ _.
    ok (record { host = host; port = port; request = request; execution_context = none })

-- `remaining.min(configured_timeout)`, at one reading of the clock
unfoldable pub effective_timeout :
    TaskExecutionContext → Duration → Instant → Result NetworkAdapterError Duration
effective_timeout context configured_timeout now =
    let remaining = remaining_wall_time context now in
    if nat_beq remaining 0
    then err budget_exceeded
    else ok (if ltb configured_timeout remaining then configured_timeout else remaining)

unfoldable pub io_failure :
    TaskExecutionContext → NetworkAdapterError → Instant → NetworkAdapterError
io_failure context fallback now =
    if nat_beq (remaining_wall_time context now) 0 then budget_exceeded else fallback

-- `std::net::SocketAddr`: address and port, for IPv6 also the flow information and the scope.
pub data SocketAddr : Type 0 where
  socket_v4 : List ℕ → ℕ → SocketAddr
  socket_v6 : List ℕ → ℕ → ℕ → ℕ → SocketAddr

-- `SocketAddr::new`
abbrev pub socket_addr : IpAddr → ℕ → SocketAddr
socket_addr (v4 bytes) port = socket_v4 bytes port
socket_addr (v6 bytes) port = socket_v6 bytes port 0 0

unfoldable pub socket_beq : SocketAddr → SocketAddr → Bool
socket_beq (socket_v4 a p) (socket_v4 b q) = list_beq a b && nat_beq p q
socket_beq (socket_v6 a p f s) (socket_v6 b q g t) =
    list_beq a b && nat_beq p q && nat_beq f g && nat_beq s t
socket_beq _ _ = false

-- `std::time` and `std::net::TcpStream`
pub record Network (W : Type 0) : Type 0 where
  pub clock : W → Instant × W
  pub connect_timeout : SocketAddr → Duration → W → Option (Unit {0}) × W
  pub peer_addr : W → Option SocketAddr × W
  pub set_write_timeout : Duration → W → Option (Unit {0}) × W
  pub write : List ℕ → W → Option ℕ × W
  pub shutdown_write : W → Option (Unit {0}) × W
  pub set_read_timeout : Duration → W → Option (Unit {0}) × W
  pub read : ℕ → W → Option (List ℕ) × W

module _ {W : Type 0} (N : Network W) where
  -- A computation on the world, with the operator `?`.
  abbrev pub Io : Type 0 → Type 0
  Io A = Outcome W NetworkAdapterError A

  abbrev pub and_then : {A B : Type 0} → Io A → (A → W → Option (Io B)) → Option (Io B)
  and_then (returns a w) f = f a w
  and_then (fails e w) f = some (fails e w)

  -- `effective_timeout`, which reads the clock.
  unfoldable pub timeout_now : TaskExecutionContext → Duration → W → Io Duration
  unfolding effective_timeout
  timeout_now context configured_timeout w =
      let (now, w') = N.clock w in
      elim (effective_timeout context configured_timeout now) [
        | ok timeout ↦ returns timeout w'
        | err e ↦ fails e w'
      ]

  unfoldable pub require_remaining_budget : TaskExecutionContext → W → Io (Unit {0})
  unfolding timeout_now
  require_remaining_budget context w = elim (timeout_now context max_network_timeout w) [
    | returns _ w' ↦ returns tt w'
    | fails e w' ↦ fails e w'
  ]

  -- `call.map_err(|_| io_failure(context, fallback))`
  unfoldable pub checked :
      {A : Type 0} → TaskExecutionContext → NetworkAdapterError → Option A × W → Io A
  unfolding io_failure
  checked context fallback (some a, w) = returns a w
  checked context fallback (none, w) =
      let (now, w') = N.clock w in fails (io_failure context fallback now) w'

  -- `if installed_timeout != Some(timeout) { stream.set_…_timeout(Some(timeout))… }`
  unfoldable pub install :
      TaskExecutionContext
      → (Duration → W → Option (Unit {0}) × W)
      → Option Duration
      → Duration
      → W
      → Io (Unit {0})
  unfolding checked
  install context set none timeout w = checked context socket_configuration_failed (set timeout w)
  install context set (some installed) timeout w =
      if nat_beq installed timeout
      then returns tt w
      else checked context socket_configuration_failed (set timeout w)

  -- The body of the loop in `write_request`: the bytes written.
  unfoldable pub write_some :
      List ℕ → TaskExecutionContext → Option Duration → Duration → ℕ → W → Io ℕ
  unfolding install
  write_some request context installed_timeout timeout offset w =
      elim (install context N.set_write_timeout installed_timeout timeout w) [
        | fails e w' ↦ fails e w'
        | returns _ w' ↦ elim (checked context write_failed (N.write (drop offset request) w')) [
          | fails e w'' ↦ fails e w''
          | returns written w'' ↦
              if nat_beq written 0 then fails write_failed w'' else returns written w''
        ]
      ]

  -- The loop of `write_request`.
  unfoldable pub write_from :
      ℕ
      → List ℕ
      → TaskExecutionContext
      → Duration
      → ℕ
      → Option Duration
      → W
      → Option (Io (Unit {0}))
  unfolding write_some timeout_now
  write_from zero request context configured_timeout offset installed_timeout w = none
  write_from (suc fuel) request context configured_timeout offset installed_timeout w =
      elim (ltb offset (length request)) [
        | false ↦ some (returns tt w)
        | true ↦ and_then (timeout_now context configured_timeout w) λ timeout w₁.
            and_then (write_some request context installed_timeout timeout offset w₁) λ written w₂.
              write_from fuel request context configured_timeout (offset + written) (some timeout)
                w₂
      ]

  unfoldable pub write_request :
      List ℕ → TaskExecutionContext → Duration → W → Option (Io (Unit {0}))
  unfolding write_from
  write_request request context configured_timeout =
      write_from (suc (length request)) request context configured_timeout 0 none

  unfoldable pub read_limit : List ℕ → ℕ
  read_limit bytes =
      let remaining_capacity = max_tcp_response_bytes + 1 - length bytes in
      if ltb buffer_len remaining_capacity then buffer_len else remaining_capacity

  -- The loop of `read_response`.
  unfoldable pub read_from :
      ℕ → TaskExecutionContext → Duration → List ℕ → Option Duration → W → Option (Io (List ℕ))
  unfolding timeout_now install read_limit require_remaining_budget
  read_from zero context configured_timeout bytes installed_timeout w = none
  read_from (suc fuel) context configured_timeout bytes installed_timeout w =
      and_then (timeout_now context configured_timeout w) λ timeout w₁.
        and_then (install context N.set_read_timeout installed_timeout timeout w₁) λ _ w₂.
          and_then (checked context read_failed (N.read (read_limit bytes) w₂)) λ chunk w₃.
            elim (is_empty chunk) [
              | true ↦
                  and_then (require_remaining_budget context w₃) λ _ w₄. some (returns bytes w₄)
              | false ↦ elim (ltb max_tcp_response_bytes (length (bytes ++ chunk))) [
                | true ↦ some (fails response_too_large w₃)
                | false ↦
                    read_from fuel context configured_timeout (bytes ++ chunk) (some timeout) w₃
              ]
            ]

  unfoldable pub read_response : TaskExecutionContext → Duration → W → Option (Io (List ℕ))
  unfolding read_from
  read_response context configured_timeout =
      read_from (max_tcp_response_bytes + 1) context configured_timeout [] none

  -- `stream.peer_addr().map_err(…)? != destination`
  unfoldable pub verify_peer : SocketAddr → Option SocketAddr × W → Io (Unit {0})
  unfolding socket_beq
  verify_peer destination (none, w) = fails peer_mismatch w
  verify_peer destination (some peer, w) =
      if not (socket_beq peer destination) then fails peer_mismatch w else returns tt w

  -- The end of `execute`: the write half is closed, the response is read.
  unfoldable pub receive :
      NetworkAdapter → TaskExecutionContext → W → Option (Io TcpExchangeResponse)
  unfolding read_response
  receive adapter context w = and_then (checked context write_failed (N.shutdown_write w)) λ _ w₁.
      elim (read_response context adapter.timeout w₁) [
        | none ↦ none
        | some response ↦ and_then response λ bytes w₂. some (returns (record { bytes = bytes }) w₂)
      ]

  -- What `execute` does with the connected stream.
  unfoldable pub exchange :
      NetworkAdapter
      → List ℕ
      → TaskExecutionContext
      → SocketAddr
      → W
      → Option (Io TcpExchangeResponse)
  unfolding verify_peer write_request receive
  exchange adapter request context destination w =
      and_then (require_remaining_budget context w) λ _ w₁.
        and_then (verify_peer destination (N.peer_addr w₁)) λ _ w₂.
          elim (write_request request context adapter.timeout w₂) [
            | none ↦ none
            | some written ↦ and_then written λ _ w₃.
                and_then (require_remaining_budget context w₃) λ _ w₄. receive adapter context w₄
          ]

  unfoldable pub execute :
      NetworkAdapter → TcpExchangeOperation → W → Option (Io TcpExchangeResponse)
  unfolding exchange
  execute adapter operation w =
      elim (validate_operation operation.host operation.port operation.request) [
        | err e ↦ some (fails e w)
        | ok ip ↦ elim operation.execution_context [
          | none ↦ some (fails scope_mismatch w)
          | some context ↦
              let destination = socket_addr ip operation.port in
              and_then (timeout_now context adapter.timeout w) λ connect_timeout w₁.
                and_then
                  (checked context connect_failed
                    (N.connect_timeout destination connect_timeout w₁))
                  λ _ w₂. exchange adapter operation.request context destination w₂
        ]
      ]

-- `NetworkExecutionGate::request`, over the adapter as the gate calls it; the other methods are those of
-- the gate.
module _ {St A : Type 0} (S : EventStore St)
    (D : Adapter A TcpExchangeOperation TcpExchangeResponse NetworkAdapterError) where
  unfoldable pub request :
      Guarded St A TcpExchangeOperation
      → Instant
      → Instant
      → OperationId
      → ApprovalId
      → TaskId
      → TcpExchangeOperation
      → Duration
      → Reply S D (ExecutionOutcome TcpExchangeResponse)
  request g first now operation_id approval_id task_id operation approval_ttl =
      elim (execution_context g.supervisor task_id) [
        | err e ↦ fails (supervisor_error e) g
        | ok context ↦
            Execution.request S D g first now operation_id approval_id task_id
              (record operation { execution_context = some context }) approval_ttl
      ]
