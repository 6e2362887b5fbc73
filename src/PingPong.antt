-- ===== src/PingPong.antt =====
-- src/common/ping_pong.cpp: the PING/PONG exchange, both ends.
pub mod Exchange
use syncwire.Common.{
  ℕ, ◌≡◌, Bool, true, false, List, [], ◌∷◌, Option, none, some, not, ◌==◌, if◌then◌else◌, Outcome,
  ok, err,
}
use syncwire.Protocol.{Frame, MessageType, ping, pong, type_eq, new_header}
use syncwire.FrameIo.{FrameIoStatus, FrameIoResult, frame_io_ok}
use syncwire.Link.{Link}

pub data PingPongStatus : Type 0 where
  success frame_io_error unexpected_message_type unexpected_payload : PingPongStatus
  invalid_request_id unexpected_transfer_id mismatched_request_id : PingPongStatus

pub record PingPongResult : Type 0 where
  pub status : PingPongStatus
  pub frame_io : FrameIoResult
  pub expected_request_id : ℕ
  pub actual_request_id : ℕ

-- FrameIoResult{} of the source, and PingPongResult{.status = status}.
abbrev pub frame_io_default : FrameIoResult
frame_io_default = record {
  status = FrameIoStatus.complete;
  transferred = 0;
  system_error = 0;
  codec_error = none;
}

abbrev pub result_with : PingPongStatus → PingPongResult
result_with status = record {
  status = status;
  frame_io = frame_io_default;
  expected_request_id = 0;
  actual_request_id = 0;
}

unfoldable pub frame_error : FrameIoResult → PingPongResult
frame_error result = record {
  status = PingPongStatus.frame_io_error;
  frame_io = result;
  expected_request_id = 0;
  actual_request_id = 0;
}

abbrev pub is_empty : List ℕ → Bool
is_empty [] = true
is_empty (x ∷ xs) = false

unfoldable pub validate_common : Frame → MessageType → PingPongStatus
validate_common frame expected_type =
    if not (type_eq frame.header.message_type expected_type)
    then PingPongStatus.unexpected_message_type
    else if not (is_empty frame.payload)
    then PingPongStatus.unexpected_payload
    else if frame.header.request_id == 0
    then PingPongStatus.invalid_request_id
    else if not (frame.header.transfer_id == 0)
    then PingPongStatus.unexpected_transfer_id
    else PingPongStatus.success

-- A PING or a PONG.
abbrev pub exchange_frame : MessageType → ℕ → Frame
exchange_frame type request_id = record { header = new_header type 0 request_id 0; payload = [] }

abbrev pub succeeded : PingPongStatus → Bool
succeeded PingPongStatus.success = true
succeeded _ = false

-- The check of the answer in perform_ping.
unfoldable pub check_pong : ℕ → Frame → PingPongResult
unfolding validate_common
check_pong request_id answer =
    let validation = validate_common answer pong in
    if not (succeeded validation)
    then result_with validation
    else if not (answer.header.request_id == request_id)
    then record {
      status = PingPongStatus.mismatched_request_id;
      frame_io = frame_io_default;
      expected_request_id = request_id;
      actual_request_id = answer.header.request_id;
    }
    else result_with PingPongStatus.success

module _ (l : Link) where
  open l use {World, send, receive}

  unfoldable pub serve_ping_frame : Frame → World → PingPongResult × World
  unfolding validate_common frame_error
  serve_ping_frame request w =
      let validation = validate_common request ping in
      let sent = send (exchange_frame pong request.header.request_id) w in
      if not (succeeded validation)
      then (result_with validation, w)
      else if not (frame_io_ok sent.0.status)
      then (frame_error sent.0, sent.1)
      else (result_with PingPongStatus.success, sent.1)

  unfoldable pub serve_ping_once : World → PingPongResult × World
  unfolding serve_ping_frame frame_error
  serve_ping_once w =
      let received = receive w in
      elim received.0 [
        | err e ↦ (frame_error e, received.1)
        | ok frame ↦ serve_ping_frame frame received.1
      ]

  -- perform_ping behind the PING.
  unfoldable pub await_pong : ℕ → World → PingPongResult × World
  unfolding check_pong frame_error
  await_pong request_id w =
      let received = receive w in
      elim received.0 [
        | err e ↦ (frame_error e, received.1)
        | ok answer ↦ (check_pong request_id answer, received.1)
      ]

  unfoldable pub perform_ping : ℕ → World → PingPongResult × World
  unfolding await_pong frame_error
  perform_ping request_id w =
      let sent = send (exchange_frame ping request_id) w in
      if request_id == 0
      then (result_with PingPongStatus.invalid_request_id, w)
      else if not (frame_io_ok sent.0.status)
      then (frame_error sent.0, sent.1)
      else await_pong request_id sent.1
