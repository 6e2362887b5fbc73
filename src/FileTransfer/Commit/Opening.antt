-- ===== src/FileTransfer/Commit/Opening.antt =====
-- receive_file of src/common/file_transfer.cpp: what it finds and leaves before TransferReady.
use syncwire.Common.{
  ℕ, ◌≡◌, ◌≢◌, refl, ap, sym, ◌∙◌, true, false, [], Option, none, some, not, ◌||◌, ltb, ◌==◌,
  length, take, take_all, Outcome, ok, err, then_do, attempt, map_err, Ensures, Ensures-then_do,
  arith, Bool-cases, Option-cases, inl, inr,
}
use syncwire.Crc32.{update, initial_state}
use syncwire.Link.{Link}
use syncwire.FileTransfer.{
  TransferLimits, FileTransferStatus, FileTransferResult, transfer_ok, with_status, with_errno,
}
use syncwire.FileTransfer.Files.{FilePath, FileSystem, FileView, FileLaws, OnlyFile}
use syncwire.FileTransfer.Kept.{Kept, Mine, Same-Mine, OnlyFile-Mine}
use syncwire.FileTransfer.Reading.{read_partial_prefix, read_partial_prefix-Ensures}
use syncwire.FileTransfer.Receive.{Progress, check_part_file, trim_part_file, start_progress}
use syncwire.FileTransfer.Store.Holds.{LeavesFiles}

module _ (l : Link) {fs : FileSystem l.World} {v : FileView fs} (laws : FileLaws v)
    (leaves : LeavesFiles l v) (limits : TransferLimits) (request_id : ℕ) (w0 : l.World) where
  open l use {World}

  -- A failure that leaves the destination as it was.
  abbrev pub Refuses : FilePath → FileTransferResult → World → Type 0
  Refuses final r w = (transfer_ok r.status ≡ false) × Kept v final w0 w

  pub and_then :
      {A B : Type 0} (final : FilePath) (P : A → World → Type 0) (R : B → World → Type 0)
      (m : Outcome FileTransferResult A × World)
      (f : A → World → Outcome FileTransferResult B × World)
      → Ensures P (Refuses final) m
      → ((a : A) (w : World) → P a w → Ensures R (Refuses final) (f a w))
      → Ensures R (Refuses final) (then_do m f)
  and_then final P R m f h k = Ensures-then_do P R (Refuses final) m f h k

  -- The partial file is this transfer's own, holds `size` bytes, and is at its start.
  abbrev pub IsFound : FilePath → FilePath → fs.Fd → ℕ → World → Type 0
  IsFound final part fd size w =
      Mine v final part fd w0 w × (length (v.bytes (v.inode fd) w) ≡ size) × (v.position fd w ≡ 0)

  pub check_part_file-IsFound :
      (final part : FilePath) (fd : fs.Fd) (w : World)
      → final ≢ part
      → Kept v final w0 w
      → v.file_at part w ≡ some (v.inode fd)
      → v.position fd w ≡ 0
      → Ensures (IsFound final part fd) (Refuses final) (check_part_file l laws limits fd w)
  unfolding check_part_file
  check_part_file-IsFound final part fd w apart kept named start =
      elim (Option-cases (fs.fstat fd w)) [
        | inl none_ ↦ rw (none_, check_part_file) (refl, kept)
        | inr (s, found) ↦
            elim (Bool-cases
              (not s.is_regular || (not (s.st_nlink == 1) || not (s.st_uid == fs.geteuid w)))) [
                | inl bad ↦ rw (found, check_part_file, bad) (refl, kept)
                | inr good ↦
                    let (sized, alone) = laws.fstat_law fd w s found in
                    let same = laws.flock_law fd w in
                    let mine : Mine v final part fd w0 w = record {
                      kept = kept;
                      named = named;
                      apart = λ e. apart (alone (ground arith) final part e named);
                    } in
                    let mine' = Same-Mine v final part fd w0 w _ mine same in
                    elim (Bool-cases (fs.flock fd w).0) [
                      | inr held ↦ rw (found, check_part_file, good, held) (refl, mine'.kept)
                      | inl locked ↦
                          rw (found, check_part_file, good, locked)
                            (
                              mine',
                              ap length (same.same_bytes (v.inode fd)) ∙ sym sized,
                              same.same_position fd ∙ start,
                            )
                    ]
              ]
      ]

  pub trim_part_file-IsFound :
      (final part : FilePath) (fd : fs.Fd) (file_size size : ℕ) (w : World)
      → IsFound final part fd size w
      → Ensures
          (IsFound final part fd)
          (Refuses final)
          (trim_part_file l laws limits fd file_size size w)
  unfolding trim_part_file
  trim_part_file-IsFound final part fd file_size size w (mine, sized, start) =
      elim (Bool-cases (ltb file_size size)) [
        | inr fits ↦ rw (fits, trim_part_file) (mine, sized, start)
        | inl large ↦
            rw (large, trim_part_file) (trimmed (fs.ftruncate fd w) (laws.ftruncate_law fd w))
      ]
    where
      trimmed :
          (m : Option ℕ × World)
          → OnlyFile v fd w m.1
            × (v.position fd m.1 ≡ v.position fd w)
            × (m.0 ≡ none → v.bytes (v.inode fd) m.1 ≡ [])
          → Ensures (IsFound final part fd) (Refuses final) (
              then_do
                (map_err (with_errno FileTransferStatus.file_write_error) (attempt m))
                (λ (u : Unit {0}) w1. (ok 0, w1)))
      trimmed (none, w1) (only, still, emptied) =
          (OnlyFile-Mine v final part fd w0 w w1 mine only, ap length (emptied refl), still ∙ start)
      trimmed (some e, w1) (only, still, emptied) =
          (refl, (OnlyFile-Mine v final part fd w0 w w1 mine only).kept)

  -- The progress is that of the whole partial file.
  abbrev pub IsStarted : FilePath → FilePath → fs.Fd → Progress → World → Type 0
  IsStarted final part fd p w =
      Mine v final part fd w0 w
      × (length (v.bytes (v.inode fd) w) ≡ p.offset)
      × (v.position fd w ≡ p.offset)
      × (p.checksum ≡ update initial_state (v.bytes (v.inode fd) w))

  pub start_progress-IsStarted :
      (final part : FilePath) (fd : fs.Fd) (size : ℕ) (w : World)
      → IsFound final part fd size w
      → Ensures (IsStarted final part fd) (Refuses final) (start_progress l laws limits fd size w)
  unfolding start_progress
  start_progress-IsStarted final part fd size w (mine, sized, start) =
      read (read_partial_prefix laws fd size w) (read_partial_prefix-Ensures laws fd size w)
    where
      read :
          (m : Outcome (Unit {0}) ℕ × World)
          → Ensures
              (λ c w'.
                OnlyFile v fd w w'
                × (v.bytes (v.inode fd) w' ≡ v.bytes (v.inode fd) w)
                × (v.position fd w ≡ 0
                    → (v.position fd w' ≡ size)
                      × (c ≡ update initial_state (take size (v.bytes (v.inode fd) w)))))
              (λ e w'. OnlyFile v fd w w')
              m
          → Ensures (IsStarted final part fd) (Refuses final) (
              then_do
                (map_err (λ (u : Unit {0}). with_status FileTransferStatus.file_read_error) m)
                (λ checksum w1. (
                  ok (record {
                    offset = size;
                    checksum = checksum;
                    resumed_from = size;
                    first_chunk = true;
                  }),
                  w1,
                )))
      read (ok c, w1) (only, same, seen) = (
        OnlyFile-Mine v final part fd w0 w w1 mine only,
        ap length same ∙ sized,
        (seen start).0,
        (seen start).1
            ∙ ap (update initial_state)
                (take_all size (v.bytes (v.inode fd) w) (omega (arith, sized)) ∙ sym same),
      )
      read (err e, w1) only = (refl, (OnlyFile-Mine v final part fd w0 w w1 mine only).kept)
