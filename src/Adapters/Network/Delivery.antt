-- ===== src/Adapters/Network/Delivery.antt =====
-- What a completed exchange of crates/aios-adapter-network/src/lib.rs has sent and received, with what
-- a TCP stream promises as the record `IsTcp`.
use ai_os.Prelude.{
  ℕ, zero, suc, ◌+◌, ◌≤◌, ◌≡◌, refl, sym, ap, subst, ◌∙◌, arith, inl, inr, true, List, [], ◌∷◌,
  ◌++◌, Option, none, some, ltb, nat_beq, length, drop, take, take-drop, drop-drop, drop_past,
  append-nil, append_assoc, is_empty, returns, fails, Outcome-cases, Result-cases, Option-cases,
  Bool-cases,
}
use ai_os.Runtime.Approval.{Duration}
use ai_os.Runtime.Supervisor.Tasks.{TaskExecutionContext}
use ai_os.Adapters.Network.{
  NetworkAdapterError, write_failed, read_failed, connect_failed, TcpExchangeOperation,
  TcpExchangeResponse, NetworkAdapter, SocketAddr, socket_addr, Network, Io, and_then,
  max_tcp_response_bytes, max_network_timeout, validate_operation, effective_timeout, timeout_now,
  require_remaining_budget, checked, install, write_some, write_from, write_request, read_limit,
  read_from, read_response, verify_peer, exchange, receive, execute,
}

-- What `std::net::TcpStream` documents: what was sent and what was received on the stream. A connection
-- starts with neither; only writing and reading add to them.
pub record IsTcp {W : Type 0} (N : Network W) (sent received : W → List ℕ) : Type 0 where
  pub clock_keeps : (w : W) → (sent (N.clock w).1 ≡ sent w) × (received (N.clock w).1 ≡ received w)
  pub connect_fresh :
      (destination : SocketAddr) (timeout : Duration) (w w' : W)
      → N.connect_timeout destination timeout w ≡ (some tt, w')
      → (sent w' ≡ []) × (received w' ≡ [])
  pub peer_keeps :
      (w : W) → (sent (N.peer_addr w).1 ≡ sent w) × (received (N.peer_addr w).1 ≡ received w)
  pub write_timeout_keeps :
      (timeout : Duration) (w : W)
      → (sent (N.set_write_timeout timeout w).1 ≡ sent w)
        × (received (N.set_write_timeout timeout w).1 ≡ received w)
  pub read_timeout_keeps :
      (timeout : Duration) (w : W)
      → (sent (N.set_read_timeout timeout w).1 ≡ sent w)
        × (received (N.set_read_timeout timeout w).1 ≡ received w)
  pub shutdown_keeps :
      (w : W)
      → (sent (N.shutdown_write w).1 ≡ sent w) × (received (N.shutdown_write w).1 ≡ received w)
  pub write_adds :
      (buffer : List ℕ) (n : ℕ) (w w' : W)
      → N.write buffer w ≡ (some n, w')
      → (sent w' ≡ sent w ++ take n buffer) × (received w' ≡ received w)
  pub read_adds :
      (limit : ℕ) (chunk : List ℕ) (w w' : W)
      → N.read limit w ≡ (some chunk, w')
      → (sent w' ≡ sent w) × (received w' ≡ received w ++ chunk)

module _ {W : Type 0} (N : Network W) (sent received : W → List ℕ)
    (tcp : IsTcp N sent received) where
  abbrev IsSame : W → W → Type 0
  IsSame w w' = (sent w' ≡ sent w) × (received w' ≡ received w)

  and_then-returns :
      {A B : Type 0} (o : Io N A) (f : A → W → Option (Io N B)) (b : B) (w' : W)
      → and_then N o f ≡ some (returns b w')
      → (a : A) × (w : W) × (o ≡ returns a w) × (f a w ≡ some (returns b w'))
  and_then-returns (returns a w) f b w' e = (a, w, refl, e)
  and_then-returns (fails x w) f b w' e = cc

  checked-returns :
      {A : Type 0} (context : TaskExecutionContext) (fallback : NetworkAdapterError)
      (call : Option A × W) (a : A) (w' : W)
      → checked N context fallback call ≡ returns a w'
      → call ≡ (some a, w')
  unfolding checked
  checked-returns context fallback (some a', w) a w' e = ground arith
  checked-returns context fallback (none, w) a w' e = cc

  timeout_now-IsSame :
      (context : TaskExecutionContext) (timeout : Duration) (w : W) (t : Duration) (w' : W)
      → timeout_now N context timeout w ≡ returns t w'
      → IsSame w w'
  unfolding timeout_now
  timeout_now-IsSame context timeout w t w' e =
      elim (Result-cases (effective_timeout context timeout (N.clock w).0)) [
        | inl (u, r) ↦
            let e' = rw (r, timeout_now) at e in
            let there : (N.clock w).1 ≡ w' = ground arith in rw (sym there) (tcp.clock_keeps w)
        | inr (x, r) ↦ let e' = rw (r, timeout_now) at e in cc
      ]

  require_remaining_budget-IsSame :
      (context : TaskExecutionContext) (w w' : W)
      → require_remaining_budget N context w ≡ returns tt w'
      → IsSame w w'
  unfolding require_remaining_budget
  require_remaining_budget-IsSame context w w' e =
      elim (Outcome-cases (timeout_now N context max_network_timeout w)) [
        | inl (t, v, r) ↦
            let e' = rw (r, require_remaining_budget) at e in
            timeout_now-IsSame context max_network_timeout w t w' (r ∙ ground arith)
        | inr (x, v, r) ↦ let e' = rw (r, require_remaining_budget) at e in cc
      ]

  -- A call of the system that keeps the stream.
  call-IsSame :
      {A : Type 0} (context : TaskExecutionContext) (fallback : NetworkAdapterError)
      (call : Option A × W) (w : W) (a : A) (w' : W)
      → IsSame w call.1
      → checked N context fallback call ≡ returns a w'
      → IsSame w w'
  call-IsSame context fallback call w a w' s e =
      subst (λ c. IsSame w c.1) (checked-returns context fallback call a w' e) s

  install-IsSame :
      (context : TaskExecutionContext) (set : Duration → W → Option (Unit {0}) × W)
      (installed : Option Duration) (timeout : Duration) (w w' : W)
      → IsSame w (set timeout w).1
      → install N context set installed timeout w ≡ returns tt w'
      → IsSame w w'
  unfolding install
  install-IsSame context set none timeout w w' s e =
      call-IsSame context _ (set timeout w) w tt w' s e
  install-IsSame context set (some i) timeout w w' s e = elim (Bool-cases (nat_beq i timeout)) [
    | inl set_already ↦
        let e' = rw (set_already, install) at e in
        let here : w ≡ w' = ground arith in rw (sym here) (refl, refl)
    | inr set_now ↦ call-IsSame context _ (set timeout w) w tt w' s (rw (set_now, install) at e)
  ]

  write_some-sent :
      (request : List ℕ) (context : TaskExecutionContext) (installed : Option Duration)
      (timeout : Duration) (offset : ℕ) (w : W) (written : ℕ) (w' : W)
      → write_some N request context installed timeout offset w ≡ returns written w'
      → (sent w' ≡ sent w ++ take written (drop offset request)) × (received w' ≡ received w)
  unfolding write_some
  write_some-sent request context installed timeout offset w written w' e =
      elim (Outcome-cases (install N context N.set_write_timeout installed timeout w)) [
        | inr (x, v, i) ↦ let e' = rw (i, write_some) at e in cc
        | inl (u, v, i) ↦
            elim (Outcome-cases
              (checked N context write_failed (N.write (drop offset request) v))) [
                | inr (x, v', c) ↦ let e' = rw (i, c, write_some) at e in cc
                | inl (n, v', c) ↦ elim (Bool-cases (nat_beq n 0)) [
                  | inl z ↦ let e' = rw (i, c, z, write_some) at e in cc
                  | inr p ↦
                      let e' = rw (i, c, p, write_some) at e in
                      let (s, r) =
                        install-IsSame context N.set_write_timeout installed timeout w v
                          (tcp.write_timeout_keeps timeout w) i in
                      let (added, kept) = tcp.write_adds (drop offset request) n v v' (
                        checked-returns context write_failed (N.write (drop offset request) v) n v'
                          c) in
                      let result : (n ≡ written) × (v' ≡ w') = ground arith in
                      rw (sym result.0, sym result.1, sym s, sym r) (added, kept)
                ]
              ]
      ]

  write_from-sent :
      (fuel : ℕ) (request : List ℕ) (context : TaskExecutionContext) (timeout : Duration)
      (offset : ℕ) (installed : Option Duration) (w w' : W)
      → write_from N fuel request context timeout offset installed w ≡ some (returns tt w')
      → (sent w' ≡ sent w ++ drop offset request) × (received w' ≡ received w)
  unfolding write_from
  write_from-sent zero request context timeout offset installed w w' e = cc
  write_from-sent (suc fuel) request context timeout offset installed w w' e =
      elim (Bool-cases (ltb offset (length request))) [
        | inr done ↦
            let e' = rw (done, write_from) at e in
            let here : w ≡ w' = ground arith in
            rw (sym here, drop_past offset request (ground arith)) (sym (append-nil (sent w)), refl)
        | inl more ↦
            let e' = rw (more, write_from) at e in
            let (t, v, te, e₁) = and_then-returns (timeout_now N context timeout w) _ tt w' e' in
            let (n, v', we, e₂) =
              and_then-returns (write_some N request context installed t offset v) _ tt w' e₁ in
            let (s₀, r₀) = timeout_now-IsSame context timeout w t v te in
            let (s₁, r₁) = write_some-sent request context installed t offset v n v' we in
            let (s₂, r₂) =
              write_from-sent fuel request context timeout (offset + n) (some t) v' w' e₂ in
            (
              s₂
                  ∙ rw (s₁, s₀)
                      (append_assoc (sent w) _ _
                        ∙ ap (λ rest. sent w ++ rest) (joined n offset request)),
              r₂ ∙ r₁ ∙ r₀,
            )
      ]
    where
      joined :
          (n offset : ℕ) (request : List ℕ)
          → take n (drop offset request) ++ drop (offset + n) request ≡ drop offset request
      joined n offset request =
          rw (sym (drop-drop offset n request)) (take-drop n (drop offset request))

  read_from-received :
      (fuel : ℕ) (context : TaskExecutionContext) (timeout : Duration) (bytes : List ℕ)
      (installed : Option Duration) (w : W) (response : List ℕ) (w' : W)
      → length bytes ≤ max_tcp_response_bytes
      → received w ≡ bytes
      → read_from N fuel context timeout bytes installed w ≡ some (returns response w')
      → (sent w' ≡ sent w) × (received w' ≡ response) × (length response ≤ max_tcp_response_bytes)
  unfolding read_from
  read_from-received zero context timeout bytes installed w response w' b h e = cc
  read_from-received (suc fuel) context timeout bytes installed w response w' b h e =
      let (t, v, te, e₁) = and_then-returns (timeout_now N context timeout w) _ response w' e in
      let (_, v₂, ie, e₂) =
        and_then-returns (install N context N.set_read_timeout installed t v) _ response w' e₁ in
      let (chunk, v₃, ce, e₃) =
        and_then-returns (checked N context read_failed (N.read (read_limit N bytes) v₂)) _ response
          w' e₂ in
      let (s₀, r₀) = timeout_now-IsSame context timeout w t v te in
      let (s₁, r₁) =
        install-IsSame context N.set_read_timeout installed t v v₂ (tcp.read_timeout_keeps t v)
          ie in
      let (s₂, r₂) =
        tcp.read_adds (read_limit N bytes) chunk v₂ v₃
          (checked-returns context read_failed (N.read (read_limit N bytes) v₂) chunk v₃ ce) in
      let same : sent v₃ ≡ sent w = s₂ ∙ s₁ ∙ s₀ in
      let got : received v₃ ≡ bytes ++ chunk = r₂ ∙ ap (λ x. x ++ chunk) (r₁ ∙ r₀ ∙ h) in
      elim (Bool-cases (is_empty chunk)) [
        | inl done ↦
            let e' = rw done at e₃ in
            let (_, v₄, be, e₄) =
              and_then-returns (require_remaining_budget N context v₃) _ response w' e' in
            let (s₃, r₃) = require_remaining_budget-IsSame context v₃ v₄ be in
            let result : (bytes ≡ response) × (v₄ ≡ w') = ground arith in
            rw (sym result.0, sym result.1) (s₃ ∙ same, r₃ ∙ got ∙ nothing bytes chunk done, b)
        | inr more ↦ elim (Bool-cases (ltb max_tcp_response_bytes (length (bytes ++ chunk)))) [
          | inl large ↦ let e' = rw (more, large) at e₃ in cc
          | inr fits ↦
              let e' = rw (more, fits) at e₃ in
              let (s₃, r₃, l₃) =
                read_from-received fuel context timeout (bytes ++ chunk) (some t) v₃ response w'
                  (ground arith) got e' in
              (s₃ ∙ same, r₃, l₃)
        ]
      ]
    where
      nothing : (bytes chunk : List ℕ) → is_empty chunk ≡ true → bytes ++ chunk ≡ bytes
      nothing bytes [] e = append-nil bytes
      nothing bytes (x ∷ chunk) e = cc

  write_request-sent :
      (request : List ℕ) (context : TaskExecutionContext) (timeout : Duration) (w w' : W)
      → write_request N request context timeout w ≡ some (returns tt w')
      → (sent w' ≡ sent w ++ request) × (received w' ≡ received w)
  unfolding write_request
  write_request-sent request context timeout w w' e =
      write_from-sent (suc (length request)) request context timeout 0 none w w' e

  read_response-received :
      (context : TaskExecutionContext) (timeout : Duration) (w : W) (response : List ℕ) (w' : W)
      → received w ≡ []
      → read_response N context timeout w ≡ some (returns response w')
      → (sent w' ≡ sent w) × (received w' ≡ response) × (length response ≤ max_tcp_response_bytes)
  unfolding read_response
  read_response-received context timeout w response w' h e =
      read_from-received (max_tcp_response_bytes + 1) context timeout [] none w response w'
        (omega arith) h e

  verify_peer-same :
      (destination : SocketAddr) (call : Option SocketAddr × W) (w' : W)
      → verify_peer N destination call ≡ returns tt w'
      → call.1 ≡ w'
  unfolding verify_peer
  verify_peer-same destination (none, w) w' e = cc
  verify_peer-same destination (some peer, w) w' e = ground arith

  -- A loop of the exchange, receive, with what follows it.
  loop-returns :
      {A B : Type 0} (loop : Option (Io N A)) (f : A → W → Option (Io N B)) (b : B) (w' : W)
      → (elim loop [ none ↦ none | some o ↦ and_then N o f ]) ≡ some (returns b w')
      → (a : A) × (w : W) × (loop ≡ some (returns a w)) × (f a w ≡ some (returns b w'))
  loop-returns none f b w' e = cc
  loop-returns (some o) f b w' e =
      let (a, w, o_eq, rest) = and_then-returns o f b w' e in (a, w, ap some o_eq, rest)

  -- The request was sent, the response is what was received, within its limit.
  abbrev pub Delivers : List ℕ → TcpExchangeResponse → W → Type 0
  Delivers request response w =
      (sent w ≡ request)
      × (received w ≡ response.bytes)
      × (length response.bytes ≤ max_tcp_response_bytes)

  delivered :
      (request bytes : List ℕ) (w : W) (response : TcpExchangeResponse) (w' : W)
      → sent w ≡ request
      → received w ≡ bytes
      → length bytes ≤ max_tcp_response_bytes
      → ◌≡◌ {A = Option (Io N TcpExchangeResponse)}
          (some (returns (record { bytes = bytes }) w))
          (some (returns response w'))
      → Delivers request response w'
  delivered request bytes w response w' s r l e =
      let result : (bytes ≡ response.bytes) × (w ≡ w') = ground arith in
      rw (sym result.0, sym result.1) (s, r, l)

  receive-Delivers :
      (adapter : NetworkAdapter) (request : List ℕ) (context : TaskExecutionContext) (w : W)
      (response : TcpExchangeResponse) (w' : W)
      → sent w ≡ request
      → received w ≡ []
      → receive N adapter context w ≡ some (returns response w')
      → Delivers request response w'
  unfolding receive
  receive-Delivers adapter request context w response w' s r e =
      let (_, w₁, sh, e₁) =
        and_then-returns (checked N context write_failed (N.shutdown_write w)) _ response w' e in
      let (bytes, w₂, rd, e₂) =
        loop-returns (read_response N context adapter.timeout w₁)
          (λ bytes v. some (returns (record { bytes = bytes }) v)) response w' e₁ in
      let (s₁, r₁) =
        call-IsSame context write_failed (N.shutdown_write w) w tt w₁ (tcp.shutdown_keeps w) sh in
      let (s₂, r₂, l₂) = read_response-received context adapter.timeout w₁ bytes w₂ (r₁ ∙ r) rd in
      delivered request bytes w₂ response w' (s₂ ∙ s₁ ∙ s) r₂ l₂ e₂

  written-Delivers :
      (adapter : NetworkAdapter) (request : List ℕ) (context : TaskExecutionContext) (w : W)
      (response : TcpExchangeResponse) (w' : W)
      → sent w ≡ []
      → received w ≡ []
      → (elim (write_request N request context adapter.timeout w) [
        | none ↦ none
        | some written ↦ and_then N written λ _ w₃.
            and_then N (require_remaining_budget N context w₃) λ _ w₄. receive N adapter context w₄
      ])
        ≡ some (returns response w')
      → Delivers request response w'
  written-Delivers adapter request context w response w' s r e =
      let (_, w₃, wr, e₃) =
        loop-returns (write_request N request context adapter.timeout w) _ response w' e in
      let (_, w₄, b, e₄) =
        and_then-returns (require_remaining_budget N context w₃) _ response w' e₃ in
      let (s₃, r₃) = write_request-sent request context adapter.timeout w w₃ wr in
      let (s₄, r₄) = require_remaining_budget-IsSame context w₃ w₄ b in
      receive-Delivers adapter request context w₄ response w' (s₄ ∙ s₃ ∙ ap (λ x. x ++ request) s)
        (r₄ ∙ r₃ ∙ r) e₄

  exchange-Delivers :
      (adapter : NetworkAdapter) (request : List ℕ) (context : TaskExecutionContext)
      (destination : SocketAddr) (w : W) (response : TcpExchangeResponse) (w' : W)
      → sent w ≡ []
      → received w ≡ []
      → exchange N adapter request context destination w ≡ some (returns response w')
      → Delivers request response w'
  unfolding exchange
  exchange-Delivers adapter request context destination w response w' s r e =
      let (_, w₁, b₁, e₁) =
        and_then-returns (require_remaining_budget N context w) _ response w' e in
      let (_, w₂, p, e₂) =
        and_then-returns (verify_peer N destination (N.peer_addr w₁)) _ response w' e₁ in
      let (s₁, r₁) = require_remaining_budget-IsSame context w w₁ b₁ in
      let (s₂, r₂) =
        subst (λ v. IsSame w₁ v) (verify_peer-same destination (N.peer_addr w₁) w₂ p)
          (tcp.peer_keeps w₁) in
      written-Delivers adapter request context w₂ response w' (s₂ ∙ s₁ ∙ s) (r₂ ∙ r₁ ∙ r) e₂

  -- For every operating system whose streams keep the laws: when `execute` gives a response, the whole
  -- request and nothing else was sent on the connection, the response is all that was received on it,
  -- and it has at most 1 MiB.
  pub execute-Delivers :
      (adapter : NetworkAdapter) (operation : TcpExchangeOperation) (w : W)
      (response : TcpExchangeResponse) (w' : W)
      → execute N adapter operation w ≡ some (returns response w')
      → (sent w' ≡ operation.request)
        × (received w' ≡ response.bytes)
        × (length response.bytes ≤ max_tcp_response_bytes)
  unfolding execute
  execute-Delivers adapter operation w response w' e =
      elim (Result-cases (validate_operation operation.host operation.port operation.request)) [
        | inr (x, bad) ↦ let e' = rw (bad, execute) at e in cc
        | inl (ip, fine) ↦ elim (Option-cases operation.execution_context) [
          | inl n ↦ let e' = rw (fine, n, execute) at e in cc
          | inr (context, c) ↦
              let e' = rw (fine, c, execute) at e in
              let (t, w₁, te, e₁) =
                and_then-returns (timeout_now N context adapter.timeout w) _ response w' e' in
              let (_, w₂, cn, e₂) =
                and_then-returns
                  (checked N context connect_failed
                    (N.connect_timeout (socket_addr ip operation.port) t w₁))
                  _ response w' e₁ in
              let (s, r) = tcp.connect_fresh (socket_addr ip operation.port) t w₁ w₂ (
                checked-returns context connect_failed
                  (N.connect_timeout (socket_addr ip operation.port) t w₁) tt w₂ cn) in
              exchange-Delivers adapter operation.request context (socket_addr ip operation.port) w₂
                response w' s r e₂
        ]
      ]
