-- ===== src/FileTransfer.antt =====
-- src/common/file_transfer.cpp: statuses, limits, frames and the answers that both ends share.
pub mod Files
pub mod Kept
pub mod Destination
pub mod Blocks
pub mod Writing
pub mod Reading
pub mod Send
pub mod Receive
pub mod Store
pub mod Termination
pub mod Commit
use syncwire.Common.{
  ℕ, ◌+◌, ◌-◌, ◌≡◌, Bool, true, false, List, [], ◌∷◌, Option, none, some, not, ◌&&◌, ltb, leb, ◌==◌,
  if◌then◌else◌, length, Outcome, ok, err,
}
use syncwire.Protocol.{
  Frame, MessageType, type_eq, new_header, default_max_payload, transfer_result,
}
use syncwire.TransferCodec.{
  TransferResultCode, TransferCodecError, chunk_offset_size, decode_transfer_result,
  encode_transfer_result,
}
use syncwire.FrameIo.{FrameIoResult}
use syncwire.PingPong.{frame_io_default}
use syncwire.Link.{Link}

pub record TransferLimits : Type 0 where
  pub max_file_size : ℕ
  pub chunk_size : ℕ
  pub max_partial_files : ℕ
  pub max_partial_bytes : ℕ

pub data FileTransferStatus : Type 0 where
  success frame_io_error invalid_request invalid_path file_too_large : FileTransferStatus
  file_open_error file_read_error file_write_error file_commit_error : FileTransferStatus
  unexpected_message_type unexpected_frame invalid_request_id invalid_transfer_id :
      FileTransferStatus
  mismatched_request_id invalid_payload unexpected_offset size_mismatch : FileTransferStatus
  checksum_mismatch remote_rejected : FileTransferStatus

pub record FileTransferResult : Type 0 where
  pub status : FileTransferStatus
  pub frame_io : FrameIoResult
  pub codec_error : Option TransferCodecError
  pub remote_code : Option TransferResultCode
  pub transferred : ℕ
  pub expected_checksum : ℕ
  pub actual_checksum : ℕ
  pub expected_id : ℕ
  pub actual_id : ℕ
  pub system_error : ℕ
  pub resumed_from : ℕ

abbrev pub with_status : FileTransferStatus → FileTransferResult
with_status status = record {
  status = status;
  frame_io = frame_io_default;
  codec_error = none;
  remote_code = none;
  transferred = 0;
  expected_checksum = 0;
  actual_checksum = 0;
  expected_id = 0;
  actual_id = 0;
  system_error = 0;
  resumed_from = 0;
}

-- FileTransferResult{.status = status, .system_error = error}.
abbrev pub with_errno : FileTransferStatus → ℕ → FileTransferResult
with_errno status error = record (with_status status) { system_error = error }

abbrev pub transfer_ok : FileTransferStatus → Bool
transfer_ok FileTransferStatus.success = true
transfer_ok _ = false

unfoldable pub frame_error : FrameIoResult → FileTransferResult
frame_error result = record (with_status FileTransferStatus.frame_io_error) { frame_io = result }

unfoldable pub make_frame : MessageType → ℕ → ℕ → List ℕ → Frame
make_frame type request_id transfer_id payload = record {
  header = new_header type (length payload) request_id transfer_id;
  payload = payload;
}

-- The checks of receive_expected_frame.
unfoldable pub check_expected_frame : MessageType → ℕ → ℕ → Frame → Outcome FileTransferResult Frame
check_expected_frame type request_id transfer_id output =
    if not (output.header.request_id == request_id)
    then err (record (with_status FileTransferStatus.mismatched_request_id) {
      expected_id = request_id;
      actual_id = output.header.request_id;
    })
    else if not (output.header.transfer_id == transfer_id)
    then err (record (with_status FileTransferStatus.invalid_transfer_id) {
      expected_id = transfer_id;
      actual_id = output.header.transfer_id;
    })
    else if not (type_eq output.header.message_type type)
    then err (with_status FileTransferStatus.unexpected_message_type)
    else ok output

unfoldable pub decode_remote_result : Frame → FileTransferResult
decode_remote_result frame = elim (decode_transfer_result frame.payload) [
  | err e ↦ record (with_status FileTransferStatus.invalid_payload) { codec_error = some e }
  | ok code ↦ elim code [
    | TransferResultCode.success ↦ with_status FileTransferStatus.success
    | other ↦ record (with_status FileTransferStatus.remote_rejected) { remote_code = some other }
  ]
]

unfoldable pub valid_limits : TransferLimits → Bool
valid_limits limits =
    ltb 0 limits.chunk_size && leb limits.chunk_size (default_max_payload - chunk_offset_size)

unfoldable pub result_code_for_status : FileTransferStatus → TransferResultCode
result_code_for_status FileTransferStatus.invalid_path = TransferResultCode.invalid_path
result_code_for_status FileTransferStatus.file_too_large = TransferResultCode.file_too_large
result_code_for_status FileTransferStatus.unexpected_offset = TransferResultCode.unexpected_offset
result_code_for_status FileTransferStatus.size_mismatch = TransferResultCode.size_mismatch
result_code_for_status FileTransferStatus.checksum_mismatch = TransferResultCode.checksum_mismatch
result_code_for_status FileTransferStatus.file_open_error = TransferResultCode.file_io_error
result_code_for_status FileTransferStatus.file_read_error = TransferResultCode.file_io_error
result_code_for_status FileTransferStatus.file_write_error = TransferResultCode.file_io_error
result_code_for_status FileTransferStatus.file_commit_error = TransferResultCode.file_io_error
result_code_for_status FileTransferStatus.unexpected_message_type =
    TransferResultCode.unexpected_frame
result_code_for_status FileTransferStatus.invalid_transfer_id = TransferResultCode.unexpected_frame
result_code_for_status FileTransferStatus.mismatched_request_id =
    TransferResultCode.unexpected_frame
result_code_for_status FileTransferStatus.unexpected_frame = TransferResultCode.unexpected_frame
result_code_for_status FileTransferStatus.invalid_request = TransferResultCode.invalid_request
result_code_for_status FileTransferStatus.invalid_request_id = TransferResultCode.invalid_request
result_code_for_status FileTransferStatus.invalid_payload = TransferResultCode.invalid_request
result_code_for_status FileTransferStatus.success = TransferResultCode.invalid_request
result_code_for_status FileTransferStatus.frame_io_error = TransferResultCode.invalid_request
result_code_for_status FileTransferStatus.remote_rejected = TransferResultCode.invalid_request

module _ (l : Link) where
  open l use {World, send, receive}

  unfoldable pub receive_expected_frame :
      MessageType → ℕ → ℕ → World → Outcome FileTransferResult Frame × World
  unfolding check_expected_frame frame_error
  receive_expected_frame type request_id transfer_id w =
      let received = receive w in
      elim received.0 [
        | err e ↦ (err (frame_error e), received.1)
        | ok output ↦ (check_expected_frame type request_id transfer_id output, received.1)
      ]

  unfoldable pub send_result : ℕ → ℕ → TransferResultCode → World → FrameIoResult × World
  unfolding make_frame
  send_result request_id transfer_id code w =
      send (make_frame transfer_result request_id transfer_id (encode_transfer_result code)) w
