-- ===== src/FileTransfer/Commit.antt =====
-- receive_file of src/common/file_transfer.cpp: the end of a transfer, and the whole function.
pub mod Delivered
pub mod Renamed
pub mod Ending
pub mod Opening
pub mod Whole
use syncwire.Common.{
  ℕ, ◌≡◌, ◌≢◌, Bool, true, false, List, [], ◌∷◌, Option, none, some, not, ◌&&◌, ◌||◌, ◌==◌,
  if◌then◌else◌, Outcome, ok, err, then_do, handle, attempt, map_err, get_some,
}
use syncwire.Protocol.{Frame, transfer_ready}
use syncwire.Crc32.{value}
use syncwire.TransferCodec.{TransferResultCode, encode_transfer_ready}
use syncwire.FrameIo.{FrameIoStatus, FrameIoResult, frame_io_ok}
use syncwire.Link.{Link}
use syncwire.FileTransfer.{
  TransferLimits, FileTransferStatus, FileTransferResult, with_status, with_errno, frame_error,
  make_frame, result_code_for_status, send_result,
}
use syncwire.FileTransfer.Files.{FilePath, FileSystem, FileView, FileLaws}
use syncwire.FileTransfer.Destination.{parent_path}
use syncwire.FileTransfer.Receive.{
  Progress, OpenTransfer, Stop, rejected, interrupted, finished, reject_before_ready, open_transfer,
}
use syncwire.FileTransfer.Store.{receive_loop}
use syncwire.FileTransfer.Termination.{receive_fuel, receive_loop-ne-none}

-- The transports' failures that keep the partial file.
abbrev pub keeps_partial : FrameIoStatus → Bool
keeps_partial FrameIoStatus.peer_closed = true
keeps_partial FrameIoStatus.system_error = true
keeps_partial FrameIoStatus.complete = false
keeps_partial FrameIoStatus.invalid_header = false
keeps_partial FrameIoStatus.invalid_frame = false

module _ (l : Link) {fs : FileSystem l.World} {v : FileView fs} (laws : FileLaws v)
    (limits : TransferLimits) (request_id : ℕ) (t : OpenTransfer fs.Fd) where
  open l use {World, send, receive}

  -- cleanup while nothing is committed; afterwards it changes no file.
  abbrev pub cleanup : World → World
  cleanup w = fs.unlinkat t.prepared.directory t.prepared.part_name w

  -- What reject_transfer sends after cleanup.
  unfoldable pub report : FileTransferResult → World → FileTransferResult × World
  unfolding send_result frame_error
  report result w =
      let sent = send_result l request_id request_id (result_code_for_status result.status) w in
      if not (frame_io_ok sent.0.status) then (frame_error sent.0, sent.1) else (result, sent.1)

  unfoldable pub reject_transfer : FileTransferResult → World → FileTransferResult × World
  unfolding report
  reject_transfer result w = report result (cleanup w)

  abbrev pub interrupted_result : FrameIoResult → Progress → FileTransferResult
  interrupted_result io progress = record (frame_error io) {
    transferred = progress.offset;
    resumed_from = progress.resumed_from;
  }

  -- The lambda `interrupted`.
  unfoldable pub interrupt : FrameIoResult → Progress → World → FileTransferResult × World
  unfolding frame_error
  interrupt io progress w =
      if keeps_partial io.status
      then handle (attempt (fs.fsync t.part_file w))
          (λ e w1. (with_errno FileTransferStatus.file_write_error e, cleanup w1))
          (λ u w1. (interrupted_result io progress, w1))
      else (interrupted_result io progress, cleanup w)

  unfoldable pub check_content : Progress → Outcome FileTransferResult (Unit {0})
  unfolding value
  check_content progress =
      if not (progress.offset == t.metadata.file_size)
      then err
          (record (with_status FileTransferStatus.size_mismatch) { transferred = progress.offset })
      else if not (value progress.checksum == t.metadata.checksum)
      then err (record (with_status FileTransferStatus.checksum_mismatch) {
        transferred = progress.offset;
        expected_checksum = t.metadata.checksum;
        actual_checksum = value progress.checksum;
      })
      else ok tt

  abbrev pub commit_error : Progress → ℕ → FileTransferResult
  commit_error progress error = record (with_errno FileTransferStatus.file_commit_error error) {
    transferred = progress.offset;
  }

  -- From the end of the loop to the rename.
  unfoldable pub commit : Progress → World → Outcome FileTransferResult (Unit {0}) × World
  unfolding check_content
  commit progress w =
      then_do (check_content progress, w)
        (λ u w1.
          then_do (map_err (commit_error progress) (attempt (fs.fsync t.part_file w1))) (λ u' w2.
            map_err (commit_error progress)
              (attempt (fs.rename t.prepared.part_path t.prepared.final_path w2))))

  -- What is synchronized once the rename is done.
  unfoldable pub sync_directories : World → Outcome ℕ (Unit {0}) × World
  sync_directories w = then_do (fs.open_directory (parent_path t.prepared.final_path) w) (λ fd w1.
      then_do (attempt (fs.fsync fd w1)) (λ u w2. attempt (fs.fsync t.prepared.directory w2)))

  unfoldable pub success_result : Progress → FileTransferResult
  unfolding value
  success_result progress = record (with_status FileTransferStatus.success) {
    transferred = progress.offset;
    expected_checksum = t.metadata.checksum;
    actual_checksum = value progress.checksum;
    resumed_from = progress.resumed_from;
  }

  unfoldable pub send_success : Progress → World → FileTransferResult × World
  unfolding send_result frame_error success_result
  send_success progress w =
      let sent = send_result l request_id request_id TransferResultCode.success w in
      if not (frame_io_ok sent.0.status)
      then (frame_error sent.0, sent.1)
      else (success_result progress, sent.1)

  -- After the rename the partial file is no more, and a rejection cleans nothing up.
  unfoldable pub settle : Progress → World → FileTransferResult × World
  unfolding sync_directories send_success report
  settle progress w =
      handle (sync_directories w)
        (λ e w1. report (with_errno FileTransferStatus.file_commit_error e) w1)
        (λ u w1. send_success progress w1)

  unfoldable pub end_transfer : Stop → World → FileTransferResult × World
  unfolding reject_transfer interrupt commit settle
  end_transfer (rejected result) w = reject_transfer result w
  end_transfer (interrupted io progress) w = interrupt io progress w
  end_transfer (finished progress) w =
      handle (commit progress w) (λ result w1. reject_transfer result w1)
        (λ u w1. settle progress w1)

  -- The while loop, with a round for each that it can take.
  unfoldable pub receive_chunks : Progress → World → Stop × World
  unfolding receive_loop
  receive_chunks progress w =
      get_some
        (receive_loop l laws limits request_id t (receive_fuel l laws limits request_id t) progress
          w)
        (receive_loop-ne-none l laws limits request_id t progress w)

  -- From TransferReady on.
  unfoldable pub transfer : World → FileTransferResult × World
  unfolding make_frame interrupt end_transfer receive_chunks
  transfer w =
      let ready = make_frame transfer_ready request_id request_id (
        encode_transfer_ready
          (record { offset = t.progress.offset; prefix_checksum = value t.progress.checksum })) in
      let sent = send ready w in
      if not (frame_io_ok sent.0.status)
      then interrupt sent.0 t.progress sent.1
      else let stopped = receive_chunks t.progress sent.1 in end_transfer stopped.0 stopped.1

module _ (l : Link) {fs : FileSystem l.World} {v : FileView fs} (laws : FileLaws v)
    (limits : TransferLimits) where
  open l use {World}

  unfoldable pub receive_file : FilePath → Frame → World → FileTransferResult × World
  unfolding reject_before_ready open_transfer transfer
  receive_file root request w =
      handle (open_transfer l laws limits root request w)
        (λ result w1. reject_before_ready l laws limits request.header.request_id result w1)
        (λ t w1. transfer l laws limits request.header.request_id t w1)
