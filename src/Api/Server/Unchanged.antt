-- ===== src/Api/Server/Unchanged.antt =====
-- When a connection, served by `serve_stream` of crates/aios-local-api/src/lib.rs, reaches the
-- supervisor.
use ai_os.Prelude.{
  ℕ, ◌≡◌, ◌⊎◌, refl, subst, inl, inr, arith, true, List, Option, none, some, Result, ok, err,
  Outcome, returns, fails, state_of, Bool-cases, Option-cases, Outcome-cases,
}
use ai_os.Runtime.Event.{TaskId, EventStore}
use ai_os.Runtime.Approval.{Instant}
use ai_os.Runtime.Supervisor.{TaskSupervisor}
use ai_os.Api.{ApiRequest, ApiResponse, LocalApiError, is_supported_protocol_version, handle}
use ai_os.Api.Frames.{Arriving, Sending, read_frame}
use ai_os.Api.Server.{Json, answer_payload, answer_frame, send_answer, serve_stream, write_response}

module _ {St : Type 0} (S : EventStore St) (J : Json) where
  -- A payload whose version is supported and that parses as the request.
  abbrev pub IsRequest : List ℕ → ApiRequest → Type 0
  IsRequest payload request =
      (version : ℕ) × (J.probe payload ≡ some version)
      × (is_supported_protocol_version version ≡ true)
      × (J.parse_request payload ≡ some request)

  -- What `read_frame` gave is a whole frame whose payload is the request.
  abbrev pub IsAsked : Outcome Arriving LocalApiError (Option (List ℕ)) → ApiRequest → Type 0
  IsAsked frame request =
      (payload : List ℕ) × (rest : Arriving) × (frame ≡ returns (some payload) rest)
      × IsRequest payload request

  answer_payload_cases :
      (sup : TaskSupervisor St) (now : Instant) (new_id : TaskId) (payload : List ℕ)
      → ((¬ ((request : ApiRequest) × IsRequest payload request))
          × ((answer_payload S J sup now new_id payload).1 ≡ sup))
        ⊎ ((request : ApiRequest) × IsRequest payload request
            × ((answer_payload S J sup now new_id payload).1 ≡ (handle S sup now new_id request).1))
  unfolding answer_payload
  answer_payload_cases sup now new_id payload = elim (Option-cases (J.probe payload)) [
    | inl n ↦ inl ((λ (_, (_, q, _, _)). absurd (cc q)), rw (n, answer_payload) refl)
    | inr (version, p) ↦ elim (Bool-cases (is_supported_protocol_version version)) [
      | inr old ↦ inl ((λ (_, (v, q, c, _)). ground arith), rw (p, old, answer_payload) refl)
      | inl current ↦ elim (Option-cases (J.parse_request payload)) [
        | inl n ↦ inl ((λ (_, (_, _, _, r)). cc), rw (p, current, n, answer_payload) refl)
        | inr (request, r) ↦
            inr (request, (version, p, current, r), rw (p, current, r, answer_payload) refl)
      ]
    ]
  ]

  answer_frame_cases :
      (sup : TaskSupervisor St) (now : Instant) (new_id : TaskId)
      (o : Outcome Arriving LocalApiError (Option (List ℕ)))
      → ((¬ ((request : ApiRequest) × IsAsked o request))
          × ((answer_frame S J sup now new_id o).1 ≡ sup))
        ⊎ ((request : ApiRequest) × IsAsked o request
            × ((answer_frame S J sup now new_id o).1 ≡ (handle S sup now new_id request).1))
  unfolding answer_frame
  answer_frame_cases sup now new_id (returns none rest) =
      inl ((λ (_, (_, _, e, _)). absurd (cc e)), refl)
  answer_frame_cases sup now new_id (returns (some payload) rest) =
      elim (answer_payload_cases sup now new_id payload) [
        | inl (none_asked, same) ↦ inl (
          (λ (request, (payload', _, e, asked)).
              none_asked (request, subst (λ p. IsRequest p request) (ground arith) asked)),
          same,
        )
        | inr (request, asked, handled) ↦ inr (request, (payload, rest, refl, asked), handled)
      ]
  answer_frame_cases sup now new_id (fails e rest) =
      inl ((λ (_, (_, _, e', _)). absurd (cc e')), failed e rest)
    where
      failed :
          (e : LocalApiError) (rest : Arriving)
          → (answer_frame S J sup now new_id (fails e rest)).1 ≡ sup
      failed e rest = ground arith

  send_answer-supervisor :
      (max_frame_bytes : ℕ) (sending : Sending) (answer : Result LocalApiError ApiResponse)
      (sup : TaskSupervisor St)
      → (state_of (send_answer S J max_frame_bytes sending (answer, sup))).supervisor ≡ sup
  unfolding send_answer
  send_answer-supervisor max_frame_bytes sending (err e) sup = refl
  send_answer-supervisor max_frame_bytes sending (ok response) sup =
      elim (Outcome-cases (write_response J max_frame_bytes response sending)) [
        | inl (_, v, w) ↦ rw (w, send_answer) refl
        | inr (e, v, w) ↦ rw (w, send_answer) refl
      ]

  serve_stream-answer_frame :
      (sup : TaskSupervisor St) (now : Instant) (new_id : TaskId) (max_frame_bytes : ℕ)
      (arriving : Arriving) (sending : Sending)
      → (state_of (serve_stream S J sup now new_id max_frame_bytes arriving sending)).supervisor
        ≡ (answer_frame S J sup now new_id (read_frame max_frame_bytes arriving)).1
  unfolding serve_stream
  serve_stream-answer_frame sup now new_id max_frame_bytes arriving sending =
      let answer = answer_frame S J sup now new_id (read_frame max_frame_bytes arriving) in
      send_answer-supervisor max_frame_bytes sending answer.0 answer.1

  -- A served connection leaves the supervisor as it was when no request was asked on it, that is, when
  -- no whole frame within the limit arrived whose payload has a supported version and parses as a
  -- request. Otherwise the supervisor is as `handle` leaves it on that request, also when the response
  -- cannot be written.
  pub serve_stream-supervisor :
      (sup : TaskSupervisor St) (now : Instant) (new_id : TaskId) (max_frame_bytes : ℕ)
      (arriving : Arriving) (sending : Sending)
      → ((¬ ((request : ApiRequest) × IsAsked (read_frame max_frame_bytes arriving) request))
          × ((state_of
                (serve_stream S J sup now new_id max_frame_bytes arriving sending)).supervisor
              ≡ sup))
        ⊎ ((request : ApiRequest) × IsAsked (read_frame max_frame_bytes arriving) request
            × ((state_of
                  (serve_stream S J sup now new_id max_frame_bytes arriving sending)).supervisor
                ≡ (handle S sup now new_id request).1))
  serve_stream-supervisor sup now new_id max_frame_bytes arriving sending =
      rw (serve_stream-answer_frame sup now new_id max_frame_bytes arriving sending)
        (answer_frame_cases sup now new_id (read_frame max_frame_bytes arriving))
