-- ===== src/FileTransfer/Commit/Delivered.antt =====
-- receive_file of src/common/file_transfer.cpp: the end of a transfer, in terms of the destination.
use syncwire.Common.{
  ℕ, ◌≡◌, ◌≢◌, ◌⊎◌, refl, ap, sym, ◌∙◌, true, false, Option, none, some, length, handle, attempt,
  Bool-cases, inl, inr,
}
use syncwire.Crc32.{crc32}
use syncwire.TransferCodec.{UploadMetadata}
use syncwire.FrameIo.{FrameIoResult, frame_io_ok}
use syncwire.Link.{Link}
use syncwire.FileTransfer.{
  TransferLimits, FileTransferStatus, FileTransferResult, transfer_ok, with_errno, frame_error,
  make_frame, send_result, result_code_for_status,
}
use syncwire.FileTransfer.Files.{FilePath, FileSystem, FileView, FileLaws, Same}
use syncwire.FileTransfer.Kept.{Kept, Kept-trans, Same-Kept, Same-Mine}
use syncwire.FileTransfer.Destination.{child}
use syncwire.FileTransfer.Receive.{Progress, OpenTransfer}
use syncwire.FileTransfer.Store.Holds.{LeavesFiles, IsMine}
use syncwire.FileTransfer.Commit.{
  keeps_partial, cleanup, report, reject_transfer, interrupted_result, interrupt,
}

module _ {World : Type 0} {fs : FileSystem World} (v : FileView fs) where
  -- The destination names a file with the size and the checksum of the metadata.
  pub record Committed (final : FilePath) (metadata : UploadMetadata) (w : World) : Type 0 where
    pub stored : v.Inode
    pub named : v.file_at final w ≡ some stored
    pub sized : length (v.bytes stored w) ≡ metadata.file_size
    pub checked : crc32 (v.bytes stored w) ≡ metadata.checksum

  -- A success has committed the upload; any other result leaves the destination as it was, or, when
  -- what follows the rename failed, as the upload would have it.
  abbrev pub IsDelivered : FilePath → UploadMetadata → World → FileTransferResult × World → Type 0
  IsDelivered final metadata w0 (r, w) =
      ((transfer_ok r.status ≡ true)
        × (r.transferred ≡ metadata.file_size)
        × Committed final metadata w)
      ⊎ ((transfer_ok r.status ≡ false) × (Kept v final w0 w ⊎ Committed final metadata w))

  pub Same-Committed :
      (final : FilePath) (metadata : UploadMetadata) (w w' : World)
      → Committed final metadata w
      → Same v w w'
      → Committed final metadata w'
  Same-Committed final metadata w w' c same = record {
    stored = c.stored;
    named = same.same_files final ∙ c.named;
    sized = ap length (same.same_bytes c.stored) ∙ c.sized;
    checked = ap crc32 (same.same_bytes c.stored) ∙ c.checked;
  }

module _ (l : Link) {fs : FileSystem l.World} {v : FileView fs} (laws : FileLaws v)
    (leaves : LeavesFiles l v) (limits : TransferLimits) (request_id : ℕ) (t : OpenTransfer fs.Fd)
    (w0 : l.World) where
  open l use {World, send, receive}

  abbrev pub Ends : FileTransferResult × World → Type 0
  Ends m = IsDelivered v t.prepared.final_path t.metadata w0 m

  abbrev pub Fate : World → Type 0
  Fate w = Kept v t.prepared.final_path w0 w ⊎ Committed v t.prepared.final_path t.metadata w

  pub Same-Fate : (w w' : World) → Fate w → Same v w w' → Fate w'
  Same-Fate w w' (inl kept) same = inl (
      Kept-trans v t.prepared.final_path w0 w w' kept (Same-Kept v t.prepared.final_path w w' same))
  Same-Fate w w' (inr c) same = inr (Same-Committed v t.prepared.final_path t.metadata w w' c same)

  pub report-Ends :
      (result : FileTransferResult) (w : World)
      → transfer_ok result.status ≡ false
      → Fate w
      → Ends (report l laws limits request_id t result w)
  unfolding report send_result frame_error make_frame
  report-Ends result w bad fate =
      let sent = send_result l request_id request_id (result_code_for_status result.status) w in
      let fate' = Same-Fate w sent.1 fate (leaves.send_law _ w) in
      elim (Bool-cases (frame_io_ok sent.0.status)) [
        | inl fine ↦ rw (fine, report) (inr (bad, fate'))
        | inr broken ↦ rw (broken, report) (inr (refl, fate'))
      ]

  module _
      (at_part : t.prepared.part_path
        ≡ child (v.directory_path t.prepared.directory) t.prepared.part_name) where
    pub cleanup-Kept :
        (w : World)
        → IsMine l laws leaves limits request_id t w0 w
        → Kept v t.prepared.final_path w0 (cleanup l laws limits request_id t w)
    cleanup-Kept w mine =
        let (others, kept) = laws.unlinkat_law t.prepared.directory t.prepared.part_name w in
        let apart : t.prepared.final_path
            ≢ child (v.directory_path t.prepared.directory) t.prepared.part_name =
          λ e. mine.apart (ap (λ (q : FilePath). v.file_at q w) (e ∙ sym at_part) ∙ mine.named) in
        Kept-trans v t.prepared.final_path w0 w _ mine.kept
          (record { same_file = others t.prepared.final_path apart; same_content = λ g h. kept g })

    pub reject_transfer-Ends :
        (result : FileTransferResult) (w : World)
        → IsMine l laws leaves limits request_id t w0 w
        → transfer_ok result.status ≡ false
        → Ends (reject_transfer l laws limits request_id t result w)
    unfolding reject_transfer
    reject_transfer-Ends result w mine bad =
        report-Ends result (cleanup l laws limits request_id t w) bad (inl (cleanup-Kept w mine))

    pub interrupt-Ends :
        (io : FrameIoResult) (p : Progress) (w : World)
        → IsMine l laws leaves limits request_id t w0 w
        → Ends (interrupt l laws limits request_id t io p w)
    unfolding interrupt frame_error
    interrupt-Ends io p w mine = elim (Bool-cases (keeps_partial io.status)) [
      | inr drops ↦ rw (drops, interrupt) (inr (refl, inl (cleanup-Kept w mine)))
      | inl keeps ↦
          rw (keeps, interrupt)
            (synced (fs.fsync t.part_file w) (
              Same-Mine v t.prepared.final_path t.prepared.part_path t.part_file w0 w _ mine
                (laws.fsync_law t.part_file w)))
    ]
      where
        synced :
            (m : Option ℕ × World)
            → IsMine l laws leaves limits request_id t w0 m.1
            → Ends (
                handle
                  (attempt m)
                  (λ e w1. (
                    with_errno FileTransferStatus.file_write_error e,
                    cleanup l laws limits request_id t w1,
                  ))
                  (λ u w1. (interrupted_result l laws limits request_id t io p, w1)))
        synced (none, w1) mine1 = inr (refl, inl mine1.kept)
        synced (some e, w1) mine1 = inr (refl, inl (cleanup-Kept w1 mine1))
