-- ===== src/FileTransfer/Commit/Ending.antt =====
-- receive_file of src/common/file_transfer.cpp: the result of an open transfer.
use syncwire.Common.{ℕ, ◌≡◌, refl, handle_lem, Bool-cases, inl, inr, get_some_lem}
use syncwire.Protocol.{transfer_ready}
use syncwire.Crc32.{value}
use syncwire.TransferCodec.{TransferResultCode, encode_transfer_ready}
use syncwire.FrameIo.{frame_io_ok}
use syncwire.Link.{Link}
use syncwire.FileTransfer.{
  TransferLimits, FileTransferStatus, with_errno, frame_error, make_frame, send_result,
}
use syncwire.FileTransfer.Files.{FileSystem, FileView, FileLaws}
use syncwire.FileTransfer.Destination.{child}
use syncwire.FileTransfer.Receive.{Progress, OpenTransfer, Stop, rejected, interrupted, finished}
use syncwire.FileTransfer.Store.Holds.{LeavesFiles, IsStop, Same-Holds}
use syncwire.FileTransfer.Store.Loop.{receive_loop-IsStop}
use syncwire.FileTransfer.Termination.{receive_fuel, receive_loop-ne-none}
use syncwire.FileTransfer.Commit.{
  commit, sync_directories, success_result, send_success, settle, end_transfer, receive_chunks,
  transfer,
}
use syncwire.FileTransfer.Commit.Delivered.{
  Same-Committed, report-Ends, reject_transfer-Ends, interrupt-Ends,
}
use syncwire.FileTransfer.Commit.Renamed.{
  There, Held, Done, Fails, commit-There, sync_directories-There,
}

module _ (l : Link) {fs : FileSystem l.World} {v : FileView fs} (laws : FileLaws v)
    (leaves : LeavesFiles l v) (limits : TransferLimits) (request_id : ℕ) (t : OpenTransfer fs.Fd)
    (w0 : l.World) where
  open l use {World, send, receive}

  send_success-Ends :
      (p : Progress) (w : World)
      → There l laws leaves limits request_id t w0 w
      → p.offset ≡ t.metadata.file_size
      → Done l laws leaves limits request_id t w0 (send_success l laws limits request_id t p w)
  unfolding send_success send_result frame_error success_result make_frame
  send_success-Ends p w there whole =
      let sent = send_result l request_id request_id TransferResultCode.success w in
      let there' =
        Same-Committed v t.prepared.final_path t.metadata w sent.1 there (leaves.send_law _ w) in
      elim (Bool-cases (frame_io_ok sent.0.status)) [
        | inl fine ↦ rw (fine, send_success) (inl (refl, whole, there'))
        | inr broken ↦ rw (broken, send_success) (inr (refl, inr there'))
      ]

  settle-Ends :
      (p : Progress) (w : World)
      → There l laws leaves limits request_id t w0 w
      → p.offset ≡ t.metadata.file_size
      → Done l laws leaves limits request_id t w0 (settle l laws limits request_id t p w)
  unfolding settle
  settle-Ends p w there whole =
      handle_lem (λ (u : Unit {0}) w'. There l laws leaves limits request_id t w0 w')
        (λ (e : ℕ) w'. There l laws leaves limits request_id t w0 w')
        (Done l laws leaves limits request_id t w0) (sync_directories l laws limits request_id t w)
        _ _ (sync_directories-There l laws leaves limits request_id t w0 w there)
        (λ e w1 there1.
          report-Ends l laws leaves limits request_id t w0
            (with_errno FileTransferStatus.file_commit_error e) w1 refl (inr there1))
        (λ u w1 there1. send_success-Ends p w1 there1 whole)

  module _
      (at_part : t.prepared.part_path
        ≡ child (v.directory_path t.prepared.directory) t.prepared.part_name) where
    end_transfer-Ends :
        (stop : Stop) (w : World)
        → IsStop l laws leaves limits request_id t w0 stop w
        → Done l laws leaves limits request_id t w0 (end_transfer l laws limits request_id t stop w)
    unfolding end_transfer
    end_transfer-Ends (rejected r) w (mine, bad) =
        reject_transfer-Ends l laws leaves limits request_id t w0 at_part r w mine bad
    end_transfer-Ends (interrupted io p) w mine =
        interrupt-Ends l laws leaves limits request_id t w0 at_part io p w mine
    end_transfer-Ends (finished p) w h =
        handle_lem
          (λ (u : Unit {0}) w'.
            There l laws leaves limits request_id t w0 w' × (p.offset ≡ t.metadata.file_size))
          (Fails l laws leaves limits request_id t w0) (Done l laws leaves limits request_id t w0)
          (commit l laws limits request_id t p w) _ _
          (commit-There l laws leaves limits request_id t w0 p w h)
          (λ r w1 (mine, bad).
            reject_transfer-Ends l laws leaves limits request_id t w0 at_part r w1 mine bad)
          (λ u w1 (there, whole). settle-Ends p w1 there whole)

    receive_chunks-IsStop :
        (p : Progress) (w : World)
        → Held l laws leaves limits request_id t w0 p w
        → IsStop l laws leaves limits request_id t w0
            (receive_chunks l laws limits request_id t p w).0
            (receive_chunks l laws limits request_id t p w).1
    unfolding receive_chunks
    receive_chunks-IsStop p w h =
        receive_loop-IsStop l laws leaves limits request_id t w0
          (receive_fuel l laws limits request_id t) p w _ _ h
          (get_some_lem _ (receive_loop-ne-none l laws limits request_id t p w))

    pub transfer-Ends :
        (w : World)
        → Held l laws leaves limits request_id t w0 t.progress w
        → Done l laws leaves limits request_id t w0 (transfer l laws limits request_id t w)
    unfolding transfer make_frame
    transfer-Ends w h =
        let ready = make_frame transfer_ready request_id request_id (
          encode_transfer_ready
            (record { offset = t.progress.offset; prefix_checksum = value t.progress.checksum })) in
        let h' =
          Same-Holds l laws leaves limits request_id t w0 t.progress w _ h
            (leaves.send_law ready w) in
        elim (Bool-cases (frame_io_ok (send ready w).0.status)) [
          | inr broken ↦
              rw (broken, transfer)
                (interrupt-Ends l laws leaves limits request_id t w0 at_part (send ready w).0
                  t.progress (send ready w).1 h'.mine)
          | inl fine ↦
              rw (fine, transfer)
                (end_transfer-Ends _ _ (receive_chunks-IsStop t.progress (send ready w).1 h'))
        ]
