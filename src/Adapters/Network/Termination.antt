-- ===== src/Adapters/Network/Termination.antt =====
-- One exchange of crates/aios-adapter-network/src/lib.rs ends, for every operating system.
use ai_os.Prelude.{
  ℕ, zero, suc, ◌+◌, ◌≤◌, ◌<◌, ◌≡◌, refl, arith, inl, inr, false, List, [], ◌∷◌, ◌++◌, Option, none,
  some, ltb, nat_beq, length, length-append, drop, is_empty, returns, fails, Outcome-cases,
  Result-cases, Option-cases, Bool-cases,
}
use ai_os.Runtime.Approval.{Duration}
use ai_os.Runtime.Supervisor.Tasks.{TaskExecutionContext}
use ai_os.Adapters.Network.{
  write_failed, read_failed, connect_failed, response_too_large, scope_mismatch,
  TcpExchangeOperation, TcpExchangeResponse, NetworkAdapter, SocketAddr, socket_addr, Network, Io,
  and_then, max_tcp_response_bytes, validate_operation, timeout_now, require_remaining_budget,
  checked, install, write_some, write_from, write_request, read_limit, read_from, read_response,
  verify_peer, exchange, receive, execute,
}

module _ {W : Type 0} (N : Network W) where
  -- It ends: there is a result, whichever.
  abbrev Ends : {A : Type 0} → Option (Io N A) → Type 0
  Ends {A} o = (r : Io N A) × (o ≡ some r)

  and_then-Ends :
      {A B : Type 0} (o : Io N A) (f : A → W → Option (Io N B))
      → ((a : A) (w : W) → o ≡ returns a w → Ends (f a w))
      → Ends (and_then N o f)
  and_then-Ends (returns a w) f h = h a w refl
  and_then-Ends (fails e w) f h = (fails e w, refl)

  write_some-positive :
      (request : List ℕ) (context : TaskExecutionContext) (installed : Option Duration)
      (timeout : Duration) (offset : ℕ) (w : W) (written : ℕ) (w' : W)
      → write_some N request context installed timeout offset w ≡ returns written w'
      → 0 < written
  unfolding write_some
  write_some-positive request context installed timeout offset w written w' e =
      elim (Outcome-cases (install N context N.set_write_timeout installed timeout w)) [
        | inr (x, v, i) ↦ let e' = rw (i, write_some) at e in cc
        | inl (u, v, i) ↦
            elim (Outcome-cases
              (checked N context write_failed (N.write (drop offset request) v))) [
                | inr (x, v', c) ↦ let e' = rw (i, c, write_some) at e in cc
                | inl (n, v', c) ↦ elim (Bool-cases (nat_beq n 0)) [
                  | inl z ↦ let e' = rw (i, c, z, write_some) at e in cc
                  | inr p ↦ let e' = rw (i, c, p, write_some) at e in ground arith
                ]
              ]
      ]

  write_from-Ends :
      (fuel : ℕ) (request : List ℕ) (context : TaskExecutionContext) (timeout : Duration)
      (offset : ℕ) (installed : Option Duration) (w : W)
      → length request < fuel + offset
      → 0 < fuel
      → Ends (write_from N fuel request context timeout offset installed w)
  unfolding write_from
  write_from-Ends zero request context timeout offset installed w h p = absurd (omega (arith, p))
  write_from-Ends (suc fuel) request context timeout offset installed w h p =
      elim (Bool-cases (ltb offset (length request))) [
        | inr done ↦ rw (done, write_from) (returns tt w, refl)
        | inl more ↦
            rw (more, write_from)
              (and_then-Ends (timeout_now N context timeout w) _ λ t v _.
                and_then-Ends (write_some N request context installed t offset v) _ λ n v' e.
                  let n>0 = write_some-positive request context installed t offset v n v' e in
                  write_from-Ends fuel request context timeout (offset + n) (some t) v'
                    (ground arith) (ground arith))
      ]

  read_from-Ends :
      (fuel : ℕ) (context : TaskExecutionContext) (timeout : Duration) (bytes : List ℕ)
      (installed : Option Duration) (w : W)
      → max_tcp_response_bytes < fuel + length bytes
      → length bytes ≤ max_tcp_response_bytes
      → Ends (read_from N fuel context timeout bytes installed w)
  unfolding read_from
  read_from-Ends zero context timeout bytes installed w h b = absurd (omega (arith, h, b))
  read_from-Ends (suc fuel) context timeout bytes installed w h b =
      and_then-Ends (timeout_now N context timeout w) _ λ t v _.
        and_then-Ends (install N context N.set_read_timeout installed t v) _ λ _ v₂ _.
          and_then-Ends (checked N context read_failed (N.read (read_limit N bytes) v₂)) _
            λ chunk v₃ _. elim (Bool-cases (is_empty chunk)) [
              | inl done ↦ rw done (
                  and_then-Ends (require_remaining_budget N context v₃) _
                    λ _ v₄ _. (returns bytes v₄, refl))
              | inr more ↦
                  elim (Bool-cases (ltb max_tcp_response_bytes (length (bytes ++ chunk)))) [
                    | inl large ↦ rw (more, large) (fails response_too_large v₃, refl)
                    | inr fits ↦
                        rw (more, fits)
                          (read_from-Ends fuel context timeout (bytes ++ chunk) (some t) v₃
                            (grows fuel bytes chunk h more) (ground arith))
                  ]
            ]
    where
      grows :
          (fuel : ℕ) (bytes chunk : List ℕ)
          → max_tcp_response_bytes < suc fuel + length bytes
          → is_empty chunk ≡ false
          → max_tcp_response_bytes < fuel + length (bytes ++ chunk)
      grows fuel bytes [] h e = cc
      grows fuel bytes (x ∷ chunk) h e = omega (arith, length-append bytes (x ∷ chunk), h)

  write_request-Ends :
      (request : List ℕ) (context : TaskExecutionContext) (timeout : Duration) (w : W)
      → Ends (write_request N request context timeout w)
  unfolding write_request
  write_request-Ends request context timeout w =
      write_from-Ends (suc (length request)) request context timeout 0 none w (omega arith)
        (omega arith)

  read_response-Ends :
      (context : TaskExecutionContext) (timeout : Duration) (w : W)
      → Ends (read_response N context timeout w)
  unfolding read_response
  read_response-Ends context timeout w =
      read_from-Ends (max_tcp_response_bytes + 1) context timeout [] none w (omega arith)
        (omega arith)

  receive-Ends :
      (adapter : NetworkAdapter) (context : TaskExecutionContext) (w : W)
      → Ends (receive N adapter context w)
  unfolding receive
  receive-Ends adapter context w =
      and_then-Ends (checked N context write_failed (N.shutdown_write w)) _ λ _ w₁ _.
        let (response, r) = read_response-Ends context adapter.timeout w₁ in
        rw r (and_then-Ends response _ λ bytes w₂ _. (returns (record { bytes = bytes }) w₂, refl))

  exchange-Ends :
      (adapter : NetworkAdapter) (request : List ℕ) (context : TaskExecutionContext)
      (destination : SocketAddr) (w : W)
      → Ends (exchange N adapter request context destination w)
  unfolding exchange
  exchange-Ends adapter request context destination w =
      and_then-Ends (require_remaining_budget N context w) _ λ _ w₁ _.
        and_then-Ends (verify_peer N destination (N.peer_addr w₁)) _ λ _ w₂ _.
          let (written, e) = write_request-Ends request context adapter.timeout w₂ in
          rw e (
            and_then-Ends written _ λ _ w₃ _.
              and_then-Ends (require_remaining_budget N context w₃) _
                λ _ w₄ _. receive-Ends adapter context w₄)

  -- For every operating system, adapter and operation, `execute` ends with a response or an error: the
  -- fuel of the write loop and of the read loop is never used up.
  pub execute_ends :
      (adapter : NetworkAdapter) (operation : TcpExchangeOperation) (w : W)
      → (r : Io N TcpExchangeResponse) × (execute N adapter operation w ≡ some r)
  unfolding execute
  execute_ends adapter operation w =
      elim (Result-cases (validate_operation operation.host operation.port operation.request)) [
        | inr (e, bad) ↦ rw (bad, execute) (fails e w, refl)
        | inl (ip, fine) ↦ elim (Option-cases operation.execution_context) [
          | inl n ↦ rw (fine, n, execute) (fails scope_mismatch w, refl)
          | inr (context, c) ↦
              rw (fine, c, execute)
                (and_then-Ends (timeout_now N context adapter.timeout w) _ λ t w₁ _.
                  and_then-Ends
                    (checked N context connect_failed
                      (N.connect_timeout (socket_addr ip operation.port) t w₁))
                    _
                    λ _ w₂ _.
                      exchange-Ends adapter operation.request context
                        (socket_addr ip operation.port) w₂)
        ]
      ]
