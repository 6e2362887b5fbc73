-- ===== src/FileTransfer/Store.antt =====
-- receive_file of src/common/file_transfer.cpp: one round of its loop, from a chunk's frame to its
-- acknowledgment.
pub mod Holds
pub mod Loop
use syncwire.Common.{
  ℕ, zero, suc, ◌+◌, ◌-◌, ◌≡◌, Bool, true, false, List, [], ◌∷◌, Option, none, some, not, ◌&&◌,
  ◌||◌, ltb, leb, ◌==◌, if◌then◌else◌, length, Outcome, ok, err, then_do, handle, attempt, map_err,
}
use syncwire.Protocol.{Frame, acknowledgment}
use syncwire.Crc32.{initial_state, update}
use syncwire.TransferCodec.{FileChunk, encode_offset}
use syncwire.FrameIo.{FrameIoResult, frame_io_ok}
use syncwire.Link.{Link}
use syncwire.FileTransfer.{TransferLimits, FileTransferStatus, FileTransferResult, make_frame}
use syncwire.FileTransfer.Files.{FileSystem, FileView, FileLaws}
use syncwire.FileTransfer.Writing.{write_all}
use syncwire.FileTransfer.Receive.{
  Progress, OpenTransfer, Stop, rejected, interrupted, finished, file_error, check_chunk,
  check_range,
}

module _ (l : Link) {fs : FileSystem l.World} {v : FileView fs} (laws : FileLaws v)
    (limits : TransferLimits) (request_id : ℕ) (t : OpenTransfer fs.Fd) where
  open l use {World, send, receive}

  unfoldable pub receive_chunk : Progress → World → Outcome Stop FileChunk × World
  receive_chunk progress w =
      let received = receive w in
      elim received.0 [
        | err io ↦ (err (interrupted io progress), received.1)
        | ok frame ↦ (check_chunk request_id progress frame, received.1)
      ]

  -- The restart at the first chunk.
  unfoldable pub restart : FileChunk → Progress → World → Outcome Stop Progress × World
  restart chunk progress w =
      if progress.first_chunk && (not (progress.offset == 0) && chunk.offset == 0)
      then then_do
          (map_err (file_error FileTransferStatus.file_write_error)
            (attempt (fs.ftruncate t.part_file w)))
          (λ u w1.
            then_do
              (map_err (file_error FileTransferStatus.file_write_error)
                (attempt (fs.lseek_start t.part_file w1)))
              (λ u' w2. (
                ok (record {
                  offset = 0;
                  checksum = initial_state;
                  resumed_from = 0;
                  first_chunk = false;
                }),
                w2,
              )))
      else (ok (record progress { first_chunk = false }), w)

  -- fsync of the partial file and of its directory.
  unfoldable pub sync_part : World → Outcome Stop (Unit {0}) × World
  sync_part w =
      then_do
        (map_err (file_error FileTransferStatus.file_write_error)
          (attempt (fs.fsync t.part_file w)))
        (λ u w1.
          map_err (file_error FileTransferStatus.file_write_error)
            (attempt (fs.fsync t.prepared.directory w1)))

  unfoldable pub acknowledge : Progress → World → Outcome Stop Progress × World
  acknowledge progress w =
      let sent =
        send (make_frame acknowledgment request_id request_id (encode_offset progress.offset)) w in
      if not (frame_io_ok sent.0.status)
      then (err (interrupted sent.0 progress), sent.1)
      else (ok progress, sent.1)

  abbrev pub advance : FileChunk → Progress → Progress
  advance chunk progress = record progress {
    offset = progress.offset + length chunk.bytes;
    checksum = update progress.checksum chunk.bytes;
  }

  unfoldable pub store_chunk : FileChunk → Progress → World → Outcome Stop Progress × World
  unfolding write_all sync_part acknowledge check_range
  store_chunk chunk progress w =
      then_do (check_range limits t.metadata.file_size chunk progress, w)
        (λ u w1.
          then_do (map_err rejected (write_all laws t.part_file chunk.bytes w1))
            (λ u' w2. then_do (sync_part w2) (λ u'' w3. acknowledge (advance chunk progress) w3)))

  -- One round of the loop: the progress to go on from, or how it stops.
  unfoldable pub round : Progress → World → Outcome Stop Progress × World
  unfolding receive_chunk restart store_chunk
  round progress w = then_do (receive_chunk progress w) (λ chunk w1.
      then_do (restart chunk progress w1) (λ progress' w2. store_chunk chunk progress' w2))

  unfoldable pub loop_next :
      (Progress → World → Option (Stop × World))
      → Outcome Stop Progress × World
      → Option (Stop × World)
  loop_next again (ok progress, w) = again progress w
  loop_next again (err stop, w) = some (stop, w)

  -- The while loop. `none`: the fuel ran out.
  unfoldable pub receive_loop : ℕ → Progress → World → Option (Stop × World)
  unfolding round loop_next
  receive_loop zero progress w = none
  receive_loop (suc fuel) progress w = loop_next (receive_loop fuel) (round progress w)
