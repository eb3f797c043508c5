-- ===== src/Adapters/Network/Witnesses.antt =====
-- The theorems on the network adapter (crates/aios-adapter-network/src/lib.rs) at a concrete system: a
-- stream that takes and gives one byte at a time, and answers with what is coming.
use ai_os.Prelude.{
  ℕ, ◌≡◌, refl, sym, ap, ◌∙◌, arith, List, [], ◌∷◌, ◌++◌, take, append-nil, Option, some, Outcome,
  returns,
}
use ai_os.Core.Address.{parse_ip, is_unspecified, is_multicast, is_broadcast}
use ai_os.Core.Text.{codes, byte_len}
use ai_os.Runtime.Supervisor.Tasks.{TaskExecutionContext, remaining_wall_time}
use ai_os.Adapters.Network.{
  NetworkAdapterError, NetworkAdapter, TcpExchangeOperation, TcpExchangeResponse, SocketAddr,
  socket_v4, Network, validate_operation, execute,
}
use ai_os.Adapters.Network.Termination.{execute_ends}
use ai_os.Adapters.Network.Delivery.{IsTcp, Delivers, execute-Delivers}

record World : Type 0 where
  sent : List ℕ
  received : List ℕ
  coming : List ℕ
  peer : SocketAddr

abbrev write_byte : List ℕ → World → Option ℕ × World
write_byte [] w = (some 0, w)
write_byte (b ∷ bytes) w = (some 1, record w { sent = w.sent ++ b ∷ [] })

abbrev read_byte : List ℕ → World → Option (List ℕ) × World
read_byte [] w = (some [], w)
read_byte (b ∷ bytes) w =
    (some (b ∷ []), record w { received = w.received ++ b ∷ []; coming = bytes })

abbrev answering : Network World
answering = record {
  clock = λ w. (9, w);
  connect_timeout =
      λ destination _ w. (some tt, record w { sent = []; received = []; peer = destination });
  peer_addr = λ w. (some w.peer, w);
  set_write_timeout = λ _ w. (some tt, w);
  write = write_byte;
  shutdown_write = λ w. (some tt, w);
  set_read_timeout = λ _ w. (some tt, w);
  read = λ _ w. read_byte w.coming w;
}

write_byte_adds :
    (buffer : List ℕ) (n : ℕ) (w w' : World)
    → write_byte buffer w ≡ (some n, w')
    → (w'.sent ≡ w.sent ++ take n buffer) × (w'.received ≡ w.received)
write_byte_adds [] n w w' e =
    let (count, same) : (0 ≡ n) × (w ≡ w') = ground arith in
    rw (sym count, sym same) (sym (append-nil w.sent), refl)
write_byte_adds (b ∷ bytes) n w w' e =
    let count : 1 ≡ n = ground arith in
    rw (sym count) (sym (ap (λ p. p.1.sent) e), sym (ap (λ p. p.1.received) e))

read_byte_adds :
    (coming chunk : List ℕ) (w w' : World)
    → read_byte coming w ≡ (some chunk, w')
    → (w'.sent ≡ w.sent) × (w'.received ≡ w.received ++ chunk)
read_byte_adds [] chunk w w' e =
    let nothing : [] ≡ chunk = ground arith in
    rw (sym nothing)
      (sym (ap (λ p. p.1.sent) e), sym (ap (λ p. p.1.received) e) ∙ sym (append-nil w.received))
read_byte_adds (b ∷ bytes) chunk w w' e =
    let one : b ∷ [] ≡ chunk = ground arith in
    rw (sym one) (sym (ap (λ p. p.1.sent) e), sym (ap (λ p. p.1.received) e))

laws : IsTcp answering (λ w. w.sent) (λ w. w.received)
laws = record {
  clock_keeps = λ w. (refl, refl);
  connect_fresh =
      λ destination timeout w w' e. (sym (ap (λ p. p.1.sent) e), sym (ap (λ p. p.1.received) e));
  peer_keeps = λ w. (refl, refl);
  write_timeout_keeps = λ timeout w. (refl, refl);
  read_timeout_keeps = λ timeout w. (refl, refl);
  shutdown_keeps = λ w. (refl, refl);
  write_adds = write_byte_adds;
  read_adds = λ limit chunk w w' e. read_byte_adds w.coming chunk w w' e;
}

abbrev adapter : NetworkAdapter
adapter = record { timeout = 1000000000 }

abbrev context : TaskExecutionContext
context = record {
  task_id = 1;
  budget = record { wall_time_seconds = 60; memory_bytes = 1024; max_parallel_agents = 1 };
  filesystem_capabilities = [];
  started_at = 5;
}

abbrev operation : TcpExchangeOperation
operation = record {
  host = codes "10.0.0.1";
  port = 80;
  request = 1 ∷ 2 ∷ [];
  execution_context = some context;
}

abbrev peer_address : SocketAddr
peer_address = socket_v4 (10 ∷ 0 ∷ 0 ∷ 1 ∷ []) 80

abbrev before : World
before = record { sent = []; received = []; coming = 3 ∷ []; peer = peer_address }

abbrev after : World
after = record { sent = 1 ∷ 2 ∷ []; received = 3 ∷ []; coming = []; peer = peer_address }

execute_ends_example :
    (r : Outcome World NetworkAdapterError TcpExchangeResponse) × (execute answering adapter
        operation before
      ≡ some r)
execute_ends_example = execute_ends answering adapter operation before

exchanged :
    execute answering adapter operation before ≡ some (returns (record { bytes = 3 ∷ [] }) after)
unfolding execute parse_ip byte_len validate_operation is_unspecified is_multicast is_broadcast
    remaining_wall_time
exchanged = refl

execute-Delivers_example :
    Delivers answering
      (λ (w : World). w.sent)
      (λ (w : World). w.received)
      laws
      (1 ∷ 2 ∷ [])
      (record { bytes = 3 ∷ [] })
      after
execute-Delivers_example =
    execute-Delivers answering (λ (w : World). w.sent) (λ (w : World). w.received) laws adapter
      operation before (record { bytes = 3 ∷ [] }) after exchanged
