-- ===== src/Api/Server.antt =====
-- The server's side and the client's side of one connection, crates/aios-local-api/src/lib.rs: one
-- request, one response. serde_json is the record `Json`.
pub mod Unchanged
mod Version
pub mod Connection
use ai_os.Prelude.{
  ℕ, ◌<◌, ◌≡◌, Bool, true, false, not, List, [], ◌∷◌, Option, none, some, ltb, nat_beq,
  if◌then◌else◌, length, Result, ok, err, Outcome, returns, fails,
}
use ai_os.Core.Text.{codes}
use ai_os.Runtime.Event.{TaskId, EventStore}
use ai_os.Runtime.Approval.{Instant}
use ai_os.Runtime.Supervisor.{TaskSupervisor}
use ai_os.Api.{
  ApiRequest, ApiResponse, LocalApiError, ServerConfig, frame_too_large, protocol, io, api_error,
  frame_too_large_code, response_too_large, unsupported_version, invalid_request,
  protocol_version_sent, is_supported_protocol_version, validate_config, handle,
}
use ai_os.Api.Frames.{Arriving, Sending, read_frame, write_frame}

-- `to_vec` and `from_slice`, `probe` for a `ProtocolProbe`.
pub record Json : Type 0 where
  pub encode_request : ApiRequest → Option (List ℕ)
  pub encode_response : ApiResponse → Option (List ℕ)
  pub probe : List ℕ → Option ℕ
  pub parse_request : List ℕ → Option ApiRequest
  pub parse_response : List ℕ → Option ApiResponse

pub record Served (St : Type 0) : Type 0 where
  pub supervisor : TaskSupervisor St
  pub stream : Sending

abbrev pub too_large : ApiResponse
too_large = api_error response_too_large (codes "response exceeds configured limit")

module _ (J : Json) where
  unfoldable pub write_response :
      ℕ → ApiResponse → Sending → Outcome Sending LocalApiError (Unit {0})
  write_response max_frame_bytes response stream = elim (J.encode_response response) [
    | none ↦ fails protocol stream
    | some payload ↦
        if ltb max_frame_bytes (length payload)
        then elim (J.encode_response too_large) [
          | none ↦ fails protocol stream
          | some payload' ↦ write_frame max_frame_bytes payload' stream
        ]
        else write_frame max_frame_bytes payload stream
  ]

  -- The client's response from what `read_frame` gives.
  unfoldable pub reply_of :
      Outcome Arriving LocalApiError (Option (List ℕ)) → Result LocalApiError ApiResponse
  reply_of (fails e _) = err e
  reply_of (returns none _) = err protocol
  reply_of (returns (some bytes) _) = elim (J.parse_response bytes) [
    | none ↦ err protocol
    | some response ↦
        if not (nat_beq response.protocol_version protocol_version_sent)
        then err protocol
        else ok response
  ]

  -- `send_request` on the configured stream: `reply` is what the other side sends, by what it is sent.
  unfoldable pub send_payload :
      ℕ → List ℕ → Sending → (List ℕ → Arriving) → Result LocalApiError ApiResponse
  unfolding write_frame read_frame reply_of
  send_payload max_frame_bytes payload stream reply =
      elim (write_frame max_frame_bytes payload stream) [
        | fails e _ ↦ err e
        | returns _ stream' ↦ reply_of (read_frame max_frame_bytes (reply stream'.sent))
      ]

  -- `send_request`: the stream is `none` where connecting or configuring it fails.
  unfoldable pub send_request :
      Option Sending
      → (List ℕ → Arriving)
      → ApiRequest
      → ServerConfig
      → Result LocalApiError ApiResponse
  unfolding validate_config send_payload
  send_request connection reply request config = elim (validate_config config) [
    | err e ↦ err e
    | ok config' ↦ elim connection [
      | none ↦ err io
      | some stream ↦ elim (J.encode_request request) [
        | none ↦ err protocol
        | some payload ↦ send_payload config'.max_frame_bytes payload stream reply
      ]
    ]
  ]

module _ {St : Type 0} (S : EventStore St) (J : Json) where
  -- The response to a payload, and the supervisor afterwards.
  unfoldable pub answer_payload :
      TaskSupervisor St → Instant → TaskId → List ℕ → ApiResponse × TaskSupervisor St
  unfolding is_supported_protocol_version handle
  answer_payload sup now new_id payload = elim (J.probe payload) [
    | none ↦ (invalid_request, sup)
    | some version ↦
        if not (is_supported_protocol_version version)
        then (unsupported_version, sup)
        else elim (J.parse_request payload) [
          | none ↦ (invalid_request, sup)
          | some request ↦ handle S sup now new_id request
        ]
  ]

  -- The response to what `read_frame` gives, or the error that ends the connection.
  unfoldable pub answer_frame :
      TaskSupervisor St
      → Instant
      → TaskId
      → Outcome Arriving LocalApiError (Option (List ℕ))
      → Result LocalApiError ApiResponse × TaskSupervisor St
  unfolding answer_payload
  answer_frame sup now new_id (returns (some payload) _) =
      let (response, sup') = answer_payload sup now new_id payload in (ok response, sup')
  answer_frame sup now new_id (returns none _) = (err protocol, sup)
  answer_frame sup now new_id (fails frame_too_large _) =
      (ok (api_error frame_too_large_code (codes "request frame is too large")), sup)
  answer_frame sup now new_id (fails e _) = (err e, sup)

  -- The end of `serve_stream`: the response is written, or the error returned.
  unfoldable pub send_answer :
      ℕ
      → Sending
      → Result LocalApiError ApiResponse × TaskSupervisor St
      → Outcome (Served St) LocalApiError (Unit {0})
  send_answer max_frame_bytes sending (err e, sup) =
      fails e (record { supervisor = sup; stream = sending })
  send_answer max_frame_bytes sending (ok response, sup) =
      elim (write_response J max_frame_bytes response sending) [
        | fails e sending' ↦ fails e (record { supervisor = sup; stream = sending' })
        | returns _ sending' ↦ returns tt (record { supervisor = sup; stream = sending' })
      ]

  -- `serve_stream`, with the two directions of the stream.
  unfoldable pub serve_stream :
      TaskSupervisor St
      → Instant
      → TaskId
      → ℕ
      → Arriving
      → Sending
      → Outcome (Served St) LocalApiError (Unit {0})
  serve_stream sup now new_id max_frame_bytes arriving sending =
      send_answer max_frame_bytes sending
        (answer_frame sup now new_id (read_frame max_frame_bytes arriving))
