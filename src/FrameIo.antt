-- ===== src/FrameIo.antt =====
-- src/common/frame_io.cpp: one frame sent or received on a socket with blocking calls.
pub mod Laws
pub mod Receive
use syncwire.Common.{
  ℕ, ◌+◌, ◌≡◌, Bool, true, false, List, Option, none, some, not, ◌==◌, if◌then◌else◌, length,
  Outcome, ok, err,
}
use syncwire.Protocol.{Frame, FrameHeader, CodecError, wire_header_size, default_max_payload}
use syncwire.Codec.{encode_header, decode_header}
use syncwire.SocketIo.{IoStatus, IoResult, Socket, SocketLaws}
use syncwire.SocketIo.Sending.{send_all}
use syncwire.SocketIo.Receiving.{recv_exact}

pub data FrameIoStatus : Type 0 where
  complete peer_closed system_error invalid_header invalid_frame : FrameIoStatus

pub record FrameIoResult : Type 0 where
  pub status : FrameIoStatus
  pub transferred : ℕ
  pub system_error : ℕ
  pub codec_error : Option CodecError

-- IoResult.ok() and FrameIoResult.ok(), on the status.
abbrev pub io_ok : IoStatus → Bool
io_ok IoStatus.complete = true
io_ok IoStatus.peer_closed = false
io_ok IoStatus.system_error = false

abbrev pub frame_io_ok : FrameIoStatus → Bool
frame_io_ok FrameIoStatus.complete = true
frame_io_ok _ = false

abbrev pub frame_io_status : IoStatus → FrameIoStatus
frame_io_status IoStatus.complete = FrameIoStatus.complete
frame_io_status IoStatus.peer_closed = FrameIoStatus.peer_closed
frame_io_status IoStatus.system_error = FrameIoStatus.system_error

unfoldable pub from_io_result : IoResult → ℕ → FrameIoResult
from_io_result result prefix = record {
  status = frame_io_status result.status;
  transferred = prefix + result.transferred;
  system_error = result.errno;
  codec_error = none;
}

module _ (s : Socket) (laws : SocketLaws s) where
  open s use {World}

  -- send_frame behind the header: the payload.
  unfoldable pub send_payload : Frame → World → FrameIoResult × World
  unfolding from_io_result
  send_payload frame w =
      let sent = send_all s laws frame.payload w in
      if not (io_ok sent.0.status) then (from_io_result sent.0 wire_header_size, sent.1) else (
        record {
          status = FrameIoStatus.complete;
          transferred = wire_header_size + length frame.payload;
          system_error = 0;
          codec_error = none;
        },
        sent.1,
      )

  -- send_frame behind its two checks.
  unfoldable pub send_header : Frame → World → FrameIoResult × World
  unfolding from_io_result send_payload
  send_header frame w =
      let sent = send_all s laws (encode_header frame.header) w in
      if not (io_ok sent.0.status)
      then (from_io_result sent.0 0, sent.1)
      else send_payload frame sent.1

  abbrev pub not_sent : Option CodecError → FrameIoResult
  not_sent e = record {
    status = FrameIoStatus.invalid_frame;
    transferred = 0;
    system_error = 0;
    codec_error = e;
  }

  unfoldable pub send_frame : Frame → World → FrameIoResult × World
  unfolding send_header
  send_frame frame w =
      if not (length frame.payload == frame.header.payload_length)
      then (not_sent none, w)
      else elim (decode_header (encode_header frame.header) default_max_payload) [
        | err e ↦ (not_sent (some e), w)
        | ok header ↦ send_header frame w
      ]

  -- receive_frame behind the header.
  unfoldable pub receive_payload : FrameHeader → World → Outcome FrameIoResult Frame × World
  unfolding from_io_result
  receive_payload header w =
      let received = recv_exact s laws header.payload_length w in
      if not (io_ok received.0.status)
      then (err (from_io_result received.0 wire_header_size), received.2)
      else (ok (record { header = header; payload = received.1 }), received.2)

  unfoldable pub receive_frame : ℕ → World → Outcome FrameIoResult Frame × World
  unfolding from_io_result receive_payload
  receive_frame max_payload w =
      let received = recv_exact s laws wire_header_size w in
      if not (io_ok received.0.status)
      then (err (from_io_result received.0 0), received.2)
      else elim (decode_header received.1 max_payload) [
        | err e ↦ (
          err (record {
            status = FrameIoStatus.invalid_header;
            transferred = wire_header_size;
            system_error = 0;
            codec_error = some e;
          }),
          received.2,
        )
        | ok header ↦ receive_payload header received.2
      ]
