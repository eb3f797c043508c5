-- ===== src/Api/Server/Connection.antt =====
-- A client and the server of crates/aios-local-api/src/lib.rs on the two ends of one connection.
use ai_os.Prelude.{
  ℕ, ◌+◌, ◌-◌, ◌<◌, ◌≤◌, ◌≡◌, refl, ap, subst, ◌∙◌, inl, inr, arith, false, ◌||◌, List, [], ◌∷◌,
  some, ltb, leb, length, append-nil, is_empty, ok, Outcome, returns, state_of, Bool-cases,
}
use ai_os.Runtime.Event.{TaskId, EventStore}
use ai_os.Runtime.Approval.{Instant}
use ai_os.Runtime.Supervisor.{TaskSupervisor}
use ai_os.Api.{
  ApiRequest, ApiResponse, LocalApiError, ServerConfig, protocol_version_sent,
  is_supported_protocol_version, validate_config, handle,
}
use ai_os.Api.Frames.{
  Arriving, Sending, read_frame, write_frame, write_all, frame_of, to_be_bytes, u32_mod,
  read_frame-frame_of,
}
use ai_os.Api.Server.{
  Json, Served, write_response, reply_of, send_payload, send_request, answer_payload, answer_frame,
  send_answer, serve_stream,
}
use ai_os.Api.Server.Version.{handle-version, handle-supported}

-- What the two sides rely on: an encoding is not empty and parses back, and the probe reads the version.
pub record IsJson (J : Json) : Type 0 where
  pub probe_encoded :
      (request : ApiRequest) (payload : List ℕ)
      → J.encode_request request ≡ some payload
      → J.probe payload ≡ some request.protocol_version
  pub request_encoded :
      (request : ApiRequest) (payload : List ℕ)
      → J.encode_request request ≡ some payload
      → (J.parse_request payload ≡ some request) × (0 < length payload)
  pub response_encoded :
      (response : ApiResponse) (payload : List ℕ)
      → J.encode_response response ≡ some payload
      → (J.parse_response payload ≡ some response) × (0 < length payload)

validated :
    (config : ServerConfig) → validate_config config ≡ ok config → config.max_frame_bytes < u32_mod
unfolding validate_config
validated config e = ground arith

-- A stream that has taken nothing yet.
abbrev pub open_stream : ℕ → Sending
open_stream room = record { sent = []; room = room }

abbrev pub arrived : List ℕ → Arriving
arrived coming = record { coming = coming; breaks = false }

read_whole :
    (max_frame_bytes : ℕ) (payload : List ℕ)
    → 0 < length payload
    → length payload ≤ max_frame_bytes
    → length payload < u32_mod
    → read_frame max_frame_bytes (arrived (frame_of payload)) ≡ returns (some payload) (arrived [])
read_whole max_frame_bytes payload some_bytes fits small =
    subst (λ xs. read_frame max_frame_bytes (arrived xs) ≡ returns (some payload) (arrived []))
      (append-nil (frame_of payload))
      (read_frame-frame_of max_frame_bytes payload [] false some_bytes fits small)

write_frame-eq-returns :
    (max_frame_bytes : ℕ) (payload : List ℕ) (room : ℕ)
    → 0 < length payload
    → length payload ≤ max_frame_bytes
    → length payload < u32_mod
    → length payload + 4 ≤ room
    → (stream : Sending) × (write_frame max_frame_bytes payload (open_stream room)
        ≡ returns tt stream)
      × (stream.sent ≡ frame_of payload)
unfolding write_frame write_all frame_of to_be_bytes
write_frame-eq-returns max_frame_bytes payload room some_bytes fits small roomy =
    let good : (is_empty payload || ltb max_frame_bytes (length payload)) ≡ false =
      holds payload some_bytes (ground arith) in
    let short : leb u32_mod (length payload) ≡ false = ground arith in
    let header : ltb room 4 ≡ false = ground arith in
    let body : ltb (room - 4) (length payload) ≡ false = ground arith in
    rw (good, short, header, body) (_, refl, refl)
  where
    holds :
        (payload : List ℕ)
        → 0 < length payload
        → ltb max_frame_bytes (length payload) ≡ false
        → (is_empty payload || ltb max_frame_bytes (length payload)) ≡ false
    holds [] h e = absurd (omega (arith, h))
    holds (b ∷ payload) h e = e

module _ {St : Type 0} (S : EventStore St) (J : Json) (json : IsJson J) where
  answer_payload-encoded :
      (sup : TaskSupervisor St) (now : Instant) (new_id : TaskId) (request : ApiRequest)
      (payload : List ℕ)
      → J.encode_request request ≡ some payload
      → answer_payload S J sup now new_id payload ≡ handle S sup now new_id request
  unfolding answer_payload
  answer_payload-encoded sup now new_id request payload e =
      let probed = json.probe_encoded request payload e in
      let (parsed, _) = json.request_encoded request payload e in
      elim (Bool-cases (is_supported_protocol_version request.protocol_version)) [
        | inl current ↦
            rw (probed, current, parsed, answer_payload)
              (handle-supported S sup now new_id request current)
        | inr old ↦ rw (probed, old, answer_payload) refl
      ]

  write_response-encoded :
      (response : ApiResponse) (answer : List ℕ) (max_frame_bytes : ℕ) (stream stream' : Sending)
      → J.encode_response response ≡ some answer
      → length answer ≤ max_frame_bytes
      → write_frame max_frame_bytes answer stream ≡ returns tt stream'
      → write_response J max_frame_bytes response stream ≡ returns tt stream'
  unfolding write_response
  write_response-encoded response answer max_frame_bytes stream stream' q fits w =
      let allowed : ltb max_frame_bytes (length answer) ≡ false = ground arith in
      rw (write_response, q, allowed) w

  answer_frame-encoded :
      (sup : TaskSupervisor St) (now : Instant) (new_id : TaskId) (request : ApiRequest)
      (payload : List ℕ) (rest : Arriving)
      → J.encode_request request ≡ some payload
      → answer_frame S J sup now new_id (returns (some payload) rest)
        ≡ (ok (handle S sup now new_id request).0, (handle S sup now new_id request).1)
  unfolding answer_frame
  answer_frame-encoded sup now new_id request payload rest e =
      ap (λ reply. (ok reply.0, reply.1)) (answer_payload-encoded sup now new_id request payload e)

  serve_stream-eq-returns :
      (sup : TaskSupervisor St) (now : Instant) (new_id : TaskId) (max_frame_bytes : ℕ)
      (arriving : Arriving) (sending sending' : Sending) (response : ApiResponse)
      (sup' : TaskSupervisor St)
      → answer_frame S J sup now new_id (read_frame max_frame_bytes arriving) ≡ (ok response, sup')
      → write_response J max_frame_bytes response sending ≡ returns tt sending'
      → serve_stream S J sup now new_id max_frame_bytes arriving sending
        ≡ returns tt (record { supervisor = sup'; stream = sending' })
  unfolding serve_stream send_answer
  serve_stream-eq-returns sup now new_id max_frame_bytes arriving sending sending' response sup' a
        w =
      ap (send_answer S J max_frame_bytes sending) a ∙ rw (send_answer, w) refl

  serve_stream-encoded :
      (sup : TaskSupervisor St) (now : Instant) (new_id : TaskId) (request : ApiRequest)
      (payload answer : List ℕ) (max_frame_bytes room : ℕ)
      → J.encode_request request ≡ some payload
      → J.encode_response (handle S sup now new_id request).0 ≡ some answer
      → length payload ≤ max_frame_bytes
      → length answer ≤ max_frame_bytes
      → max_frame_bytes < u32_mod
      → length answer + 4 ≤ room
      → (stream : Sending) × (serve_stream S J sup now new_id max_frame_bytes
            (arrived (frame_of payload))
            (open_stream room)
          ≡ returns tt
              (record { supervisor = (handle S sup now new_id request).1; stream = stream }))
        × (stream.sent ≡ frame_of answer)
  serve_stream-encoded sup now new_id request payload answer max_frame_bytes room p q fits fits'
        small roomy =
      let (_, some_bytes) = json.request_encoded request payload p in
      let (_, some_bytes') = json.response_encoded _ answer q in
      let (stream, w, sent) =
        write_frame-eq-returns max_frame_bytes answer room some_bytes' fits' (omega arith) roomy in
      (
        stream,
        serve_stream-eq-returns sup now new_id max_frame_bytes (arrived (frame_of payload))
            (open_stream room) stream (handle S sup now new_id request).0
            (handle S sup now new_id request).1
            (ap (answer_frame S J sup now new_id)
                (read_whole max_frame_bytes payload some_bytes fits (omega arith))
              ∙ answer_frame-encoded sup now new_id request payload (arrived []) p)
            (write_response-encoded _ answer max_frame_bytes (open_stream room) stream q fits' w),
        sent,
      )

  reply_of-encoded :
      (response : ApiResponse) (answer : List ℕ) (rest : Arriving)
      → J.encode_response response ≡ some answer
      → response.protocol_version ≡ protocol_version_sent
      → reply_of J (returns (some answer) rest) ≡ ok response
  unfolding reply_of
  reply_of-encoded response answer rest q v =
      rw (reply_of, (json.response_encoded response answer q).0, v) refl

  send_payload-replied :
      (max_frame_bytes : ℕ) (payload answer : List ℕ) (stream : Sending) (room : ℕ)
      (reply : List ℕ → Arriving)
      → write_frame max_frame_bytes payload (open_stream room) ≡ returns tt stream
      → reply stream.sent ≡ arrived (frame_of answer)
      → read_frame max_frame_bytes (arrived (frame_of answer)) ≡ returns (some answer) (arrived [])
      → send_payload J max_frame_bytes payload (open_stream room) reply
        ≡ reply_of J (returns (some answer) (arrived []))
  unfolding send_payload
  send_payload-replied max_frame_bytes payload answer stream room reply w r f =
      rw (send_payload, w)
        (ap (λ x. reply_of J (read_frame max_frame_bytes x)) r ∙ ap (reply_of J) f)

  send_request-payload :
      (request : ApiRequest) (config : ServerConfig) (payload : List ℕ) (stream : Sending)
      (reply : List ℕ → Arriving)
      → validate_config config ≡ ok config
      → J.encode_request request ≡ some payload
      → send_request J (some stream) reply request config
        ≡ send_payload J config.max_frame_bytes payload stream reply
  unfolding send_request
  send_request-payload request config payload stream reply valid p =
      rw (send_request, valid, p) refl

  -- With an encoding that parses back: when request and response fit into frames and the two streams
  -- take them, `send_request` gives the client the response of `handle` to its request, and the server
  -- is left with the supervisor that `handle` leaves.
  pub send_request-serve_stream :
      (sup : TaskSupervisor St) (now : Instant) (new_id : TaskId) (request : ApiRequest)
      (config : ServerConfig) (payload answer : List ℕ) (room room' : ℕ)
      → validate_config config ≡ ok config
      → J.encode_request request ≡ some payload
      → J.encode_response (handle S sup now new_id request).0 ≡ some answer
      → length payload ≤ config.max_frame_bytes
      → length answer ≤ config.max_frame_bytes
      → length payload + 4 ≤ room
      → length answer + 4 ≤ room'
      → (send_request J
            (some (open_stream room))
            (λ sent.
              arrived
                (state_of (
                  serve_stream S J sup now new_id config.max_frame_bytes
                    (arrived sent)
                    (open_stream room'))).stream.sent)
            request
            config
          ≡ ok (handle S sup now new_id request).0)
        × ((state_of (
              serve_stream S J sup now new_id config.max_frame_bytes
                (arrived (frame_of payload))
                (open_stream room'))).supervisor
            ≡ (handle S sup now new_id request).1)
  send_request-serve_stream sup now new_id request config payload answer room room' valid p q fits
        fits' roomy roomy' =
      let small = validated config valid in
      let max = config.max_frame_bytes in
      let response = (handle S sup now new_id request).0 in
      let (_, some_bytes) = json.request_encoded request payload p in
      let (_, some_bytes') = json.response_encoded response answer q in
      let (stream, w, sent) =
        write_frame-eq-returns max payload room some_bytes fits (omega arith) roomy in
      let (stream', served, sent') =
        serve_stream-encoded sup now new_id request payload answer max room' p q fits fits' small
          roomy' in
      let serve : List ℕ → Outcome (Served St) LocalApiError (Unit {0}) =
        λ bytes. serve_stream S J sup now new_id max (arrived bytes) (open_stream room') in
      let reply : List ℕ → Arriving = λ bytes. arrived (state_of (serve bytes)).stream.sent in
      (
        send_request-payload request config payload (open_stream room) reply valid p
            ∙ send_payload-replied max payload answer stream room reply w
                (ap reply sent
                  ∙ ap
                      (λ (o : Outcome (Served St) LocalApiError (Unit {0})).
                        arrived (state_of o).stream.sent)
                      served
                  ∙ ap arrived sent')
                (read_whole max answer some_bytes' fits' (omega arith))
            ∙ reply_of-encoded response answer (arrived []) q
                (handle-version S sup now new_id request),
        ap (λ (o : Outcome (Served St) LocalApiError (Unit {0})). (state_of o).supervisor) served,
      )
