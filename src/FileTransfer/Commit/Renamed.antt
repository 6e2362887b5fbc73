-- ===== src/FileTransfer/Commit/Renamed.antt =====
-- receive_file of src/common/file_transfer.cpp: from the end of its loop to its result.
use syncwire.Common.{
  ℕ, ◌≡◌, ◌⊎◌, refl, ap, sym, ◌∙◌, false, List, Option, none, some, ◌==◌, length, Outcome, ok, err,
  attempt, map_err, Ensures, Ensures-then_do, Bool-cases, inl, inr, ==_iff,
}
use syncwire.Crc32.{crc32, value, update, initial_state}
use syncwire.Link.{Link}
use syncwire.FileTransfer.{TransferLimits, FileTransferResult, transfer_ok}
use syncwire.FileTransfer.Files.{FileSystem, FileView, FileLaws, Same}
use syncwire.FileTransfer.Kept.{Same-Mine}
use syncwire.FileTransfer.Destination.{parent_path}
use syncwire.FileTransfer.Receive.{Progress, OpenTransfer}
use syncwire.FileTransfer.Store.Holds.{LeavesFiles, IsMine, Holds, Same-Holds}
use syncwire.FileTransfer.Commit.{check_content, commit_error, commit, sync_directories}
use syncwire.FileTransfer.Commit.Delivered.{Committed, Same-Committed, Ends}

module _ (l : Link) {fs : FileSystem l.World} {v : FileView fs} (laws : FileLaws v)
    (leaves : LeavesFiles l v) (limits : TransferLimits) (request_id : ℕ) (t : OpenTransfer fs.Fd)
    (w0 : l.World) where
  open l use {World, send, receive}

  abbrev pub There : World → Type 0
  There w = Committed v t.prepared.final_path t.metadata w

  abbrev pub Held : Progress → World → Type 0
  Held p w = Holds l laws leaves limits request_id t w0 p w

  abbrev pub Own : World → Type 0
  Own w = IsMine l laws leaves limits request_id t w0 w

  abbrev pub Done : FileTransferResult × World → Type 0
  Done m = Ends l laws leaves limits request_id t w0 m

  -- A failure with the files still as they were.
  abbrev pub Fails : FileTransferResult → World → Type 0
  Fails r w = Own w × (transfer_ok r.status ≡ false)

  abbrev IsWhole : Progress → Type 0
  IsWhole p = (p.offset ≡ t.metadata.file_size) × (value p.checksum ≡ t.metadata.checksum)

  check_content-IsWhole :
      (p : Progress) (w : World)
      → Own w
      → Ensures (λ u w'. Own w' × IsWhole p) Fails (check_content l laws limits request_id t p, w)
  unfolding check_content
  check_content-IsWhole p w mine = elim (Bool-cases (p.offset == t.metadata.file_size)) [
    | inr other ↦ rw (other, check_content) (mine, refl)
    | inl same ↦ elim (Bool-cases (value p.checksum == t.metadata.checksum)) [
      | inr other ↦ rw (same, check_content, other) (mine, refl)
      | inl sum ↦ rw (same, check_content, sum) (mine, ((==_iff _ _).0 same, (==_iff _ _).0 sum))
    ]
  ]

  pub commit-There :
      (p : Progress) (w : World)
      → Held p w
      → Ensures
          (λ u w'. There w' × (p.offset ≡ t.metadata.file_size))
          Fails
          (commit l laws limits request_id t p w)
  unfolding commit
  commit-There p w h =
      Ensures-then_do (λ (u : Unit {0}) w'. Held p w' × IsWhole p)
        (λ (u : Unit {0}) w'. There w' × (p.offset ≡ t.metadata.file_size)) Fails
        (check_content l laws limits request_id t p, w) _
        (checked (check_content l laws limits request_id t p) (check_content-IsWhole p w h.mine))
        (λ u w1 (h1, whole).
          Ensures-then_do (λ (u' : Unit {0}) w'. Held p w')
            (λ (u : Unit {0}) w'. There w' × (p.offset ≡ t.metadata.file_size)) Fails
            (map_err (commit_error l laws limits request_id t p)
              (attempt (fs.fsync t.part_file w1)))
            _
            (synced (fs.fsync t.part_file w1) (
              Same-Holds l laws leaves limits request_id t w0 p w1 _ h1
                (laws.fsync_law t.part_file w1)))
            (λ u' w2 h2. renamed w2 h2 whole))
    where
      checked :
          (o : Outcome FileTransferResult (Unit {0}))
          → Ensures (λ u w'. Own w' × IsWhole p) Fails (o, w)
          → Ensures (λ u w'. Held p w' × IsWhole p) Fails (o, w)
      checked (ok u) c = (h, c.1)
      checked (err e) c = c

      synced :
          (m : Option ℕ × World)
          → Held p m.1
          → Ensures
              (λ u w'. Held p w')
              Fails
              (map_err (commit_error l laws limits request_id t p) (attempt m))
      synced (none, w1) h1 = h1
      synced (some e, w1) h1 = (h1.mine, refl)

      moved :
          (w2 : World) (m : Option ℕ × World)
          → Held p w2
          → IsWhole p
          → ((e : ℕ) × (m.0 ≡ some e) × Same v w2 m.1)
            ⊎ ((m.0 ≡ none)
                × (v.file_at t.prepared.final_path m.1 ≡ v.file_at t.prepared.part_path w2)
                × ((g : v.Inode) → v.bytes g m.1 ≡ v.bytes g w2))
          → Ensures
              (λ u w'. There w' × (p.offset ≡ t.metadata.file_size))
              Fails
              (map_err (commit_error l laws limits request_id t p) (attempt m))
      moved w2 (none, w3) h2 whole (inl (e, s, same)) = cc s
      moved w2 (some e', w3) h2 whole (inl (e, s, same)) = (
        Same-Mine v t.prepared.final_path t.prepared.part_path t.part_file w0 w2 w3 h2.mine same,
        refl,
      )
      moved w2 (some e', w3) h2 whole (inr (s, at, kept)) = cc s
      moved w2 (none, w3) h2 whole (inr (s, at, kept)) = (
        record {
          stored = v.inode t.part_file;
          named = at ∙ h2.mine.named;
          sized = ap length (kept (v.inode t.part_file)) ∙ h2.whole ∙ whole.0;
          checked =
              unfold crc32 in
              ap (λ (b : List ℕ). value (update initial_state b)) (kept (v.inode t.part_file))
              ∙ ap value (sym h2.summed)
              ∙ whole.1;
        },
        whole.0,
      )

      renamed :
          (w2 : World)
          → Held p w2
          → IsWhole p
          → Ensures
              (λ u w'. There w' × (p.offset ≡ t.metadata.file_size))
              Fails
              (map_err
                (commit_error l laws limits request_id t p)
                (attempt (fs.rename t.prepared.part_path t.prepared.final_path w2)))
      renamed w2 h2 whole =
          moved w2 _ h2 whole (laws.rename_law t.prepared.part_path t.prepared.final_path w2)

  pub sync_directories-There :
      (w : World)
      → There w
      → Ensures
          (λ u w'. There w')
          (λ e w'. There w')
          (sync_directories l laws limits request_id t w)
  unfolding sync_directories
  sync_directories-There w there =
      let keep = λ (w1 w2 : World) (c : There w1) (same : Same v w1 w2).
        Same-Committed v t.prepared.final_path t.metadata w1 w2 c same in
      Ensures-then_do (λ (fd : fs.Fd) w'. There w') (λ (u : Unit {0}) w'. There w')
        (λ (e : ℕ) w'. There w') (fs.open_directory (parent_path t.prepared.final_path) w) _
        (either_way (fs.open_directory (parent_path t.prepared.final_path) w)
          (keep w _ there (laws.open_directory_law _ w).0))
        (λ fd w1 there1.
          Ensures-then_do (λ (u : Unit {0}) w'. There w') (λ (u : Unit {0}) w'. There w')
            (λ (e : ℕ) w'. There w') (attempt (fs.fsync fd w1)) _
            (attempted (fs.fsync fd w1) (keep w1 _ there1 (laws.fsync_law fd w1)))
            (λ u w2 there2.
              attempted (fs.fsync t.prepared.directory w2)
                (keep w2 _ there2 (laws.fsync_law t.prepared.directory w2))))
    where
      either_way :
          (m : Outcome ℕ fs.Fd × World)
          → There m.1
          → Ensures (λ fd w'. There w') (λ e w'. There w') m
      either_way (ok fd, w1) c = c
      either_way (err e, w1) c = c

      attempted :
          (m : Option ℕ × World)
          → There m.1
          → Ensures (λ u w'. There w') (λ e w'. There w') (attempt m)
      attempted (none, w1) c = c
      attempted (some e, w1) c = c
