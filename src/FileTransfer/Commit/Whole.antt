-- ===== src/FileTransfer/Commit/Whole.antt =====
-- receive_file of src/common/file_transfer.cpp, as a whole.
use syncwire.Common.{
  ℕ, ◌≡◌, ◌≢◌, ◌⊎◌, refl, ap, sym, subst, ◌∙◌, List, [], ◌∷◌, ◌++◌, some, Outcome, ok, err, map_err,
  Ensures, Bool-cases, inl, inr, handle_lem,
}
use mathlib.Core.List.{append_assoc}
use syncwire.Protocol.{Frame}
use syncwire.Paths.{partial_directory}
use syncwire.Paths.Components.{split}
use syncwire.TransferCodec.{UploadMetadata, decode_upload_metadata}
use syncwire.Link.{Link}
use syncwire.FileTransfer.{
  TransferLimits, FileTransferStatus, FileTransferResult, with_errno, frame_error, make_frame,
  send_result, result_code_for_status,
}
use syncwire.FileTransfer.Files.{FilePath, FileSystem, FileView, FileLaws, Same, Opened}
use syncwire.FileTransfer.Kept.{
  Kept, Kept-trans, Same-trans, Same-Kept, Same-refl, Opened-Kept, Mine,
}
use syncwire.FileTransfer.Destination.{
  Unprepared, PreparedDestination, child, prepare_destination, within_partial_budget,
}
use syncwire.FileTransfer.Destination.Prepared.{IsPrepared, prepare_destination-IsPrepared}
use syncwire.FileTransfer.Receive.{
  OpenTransfer, check_request, unprepared_result, check_part_file, trim_part_file, start_progress,
  open_part_file, check_budget, open_transfer, reject_before_ready,
}
use syncwire.FileTransfer.Store.Holds.{LeavesFiles, Holds}
use syncwire.FileTransfer.Receive.Checks.{
  unprepared_result-fails, Answers, check_request-same, not_partial, append-cancel,
}
use syncwire.FileTransfer.Commit.{receive_file, transfer}
use syncwire.FileTransfer.Commit.Delivered.{IsDelivered}
use syncwire.FileTransfer.Commit.Ending.{transfer-Ends}
use syncwire.FrameIo.{frame_io_ok}
use syncwire.FileTransfer.Commit.Opening.{
  Refuses, and_then, IsFound, check_part_file-IsFound, trim_part_file-IsFound, IsStarted,
  start_progress-IsStarted,
}

module _ (l : Link) {fs : FileSystem l.World} {v : FileView fs} (laws : FileLaws v)
    (leaves : LeavesFiles l v) (limits : TransferLimits) (root : FilePath) (request : Frame)
    (m : UploadMetadata) (decoded : decode_upload_metadata request.payload ≡ ok m)
    (w0 : l.World) where
  open l use {World}

  -- A transfer of the upload, with its files as the loop wants them.
  record IsOpen (t : OpenTransfer fs.Fd) (w : World) : Type 0 where
    same_metadata : t.metadata ≡ m
    same_final : t.prepared.final_path ≡ root ++ split m.filename
    at_part :
        t.prepared.part_path ≡ child (v.directory_path t.prepared.directory) t.prepared.part_name
    holds : Holds l laws leaves limits request.header.request_id t w0 t.progress w

  abbrev Opens : Outcome FileTransferResult (OpenTransfer fs.Fd) × World → Type 0
  Opens o =
      Ensures IsOpen
        (Refuses l laws leaves limits request.header.request_id w0 (root ++ split m.filename)) o

  apart_from :
      (d : fs.Fd) (name : List ℕ)
      → v.directory_path d ≡ child root partial_directory
      → root ++ split m.filename ≢ child (v.directory_path d) name
  apart_from d name there e = not_partial request.payload m (name ∷ []) decoded (
      append-cancel root (split m.filename) (partial_directory ∷ name ∷ []) (
        e
        ∙ ap (λ (q : FilePath). child q name) there
        ∙ append_assoc root (partial_directory ∷ []) (name ∷ [])))

  openat_keeps :
      (prepared : PreparedDestination fs.Fd) (w : World)
      → IsPrepared laws root m prepared
      → Kept v (root ++ split m.filename) w0 w
      → (o : Outcome ℕ fs.Fd × World)
      → ((e : ℕ) × (o ≡ (err e, o.1)) × Same v w o.1)
        ⊎ ((fd : fs.Fd) × (o ≡ (ok fd, o.1))
            × Opened v prepared.directory prepared.part_name fd w o.1)
      → Ensures
          (λ fd w1.
            Kept v (root ++ split m.filename) w0 w1
            × (v.file_at prepared.part_path w1 ≡ some (v.inode fd))
            × (v.position fd w1 ≡ 0))
          (Refuses l laws leaves limits request.header.request_id w0 (root ++ split m.filename))
          (map_err (with_errno FileTransferStatus.file_open_error) o)
  openat_keeps prepared w p kept (ok fd, w1) (inl (e, s, same)) = cc s
  openat_keeps prepared w p kept (err n, w1) (inl (e, s, same)) = (
    refl,
    Kept-trans v (root ++ split m.filename) w0 w w1 kept
        (Same-Kept v (root ++ split m.filename) w w1 same),
  )
  openat_keeps prepared w p kept (err n, w1) (inr (fd, s, o)) = cc s
  openat_keeps prepared w p kept (ok fd', w1) (inr (fd, s, o)) =
      let same : fd' ≡ fd = cc s in
      (
        Kept-trans v (root ++ split m.filename) w0 w w1 kept (
            Opened-Kept v (root ++ split m.filename) prepared.directory prepared.part_name fd w w1
              (apart_from prepared.directory prepared.part_name p.opened) o),
        ap (λ (q : FilePath). v.file_at q w1)
              (p.part ∙ ap (λ (q : FilePath). child q prepared.part_name) (sym p.opened))
            ∙ o.named
            ∙ ap (λ (f : fs.Fd). some (v.inode f)) (sym same),
        ap (λ (f : fs.Fd). v.position f w1) same ∙ o.at_start,
      )

  open_part_file-Opens :
      (prepared : PreparedDestination fs.Fd) (metadata : UploadMetadata) (w : World)
      → metadata ≡ m
      → IsPrepared laws root m prepared
      → Kept v (root ++ split m.filename) w0 w
      → Opens (open_part_file l laws limits metadata prepared w)
  unfolding open_part_file
  open_part_file-Opens prepared metadata w same p kept =
      let id = request.header.request_id in
      let goal = root ++ split m.filename in
      let part = prepared.part_path in
      let at_part : part ≡ child (v.directory_path prepared.directory) prepared.part_name =
        p.part ∙ ap (λ (q : FilePath). child q prepared.part_name) (sym p.opened) in
      and_then l laws leaves limits id w0 goal
        (λ (fd : fs.Fd) w1.
          Kept v goal w0 w1 × (v.file_at part w1 ≡ some (v.inode fd)) × (v.position fd w1 ≡ 0))
        IsOpen
        (map_err (with_errno FileTransferStatus.file_open_error)
          (fs.openat prepared.directory prepared.part_name w))
        _
        (openat_keeps prepared w p kept _ (laws.openat_law prepared.directory prepared.part_name w))
        (λ fd w1 (kept1, named, start).
          and_then l laws leaves limits id w0 goal (IsFound l laws leaves limits id w0 goal part fd)
            IsOpen (check_part_file l laws limits fd w1) _
            (check_part_file-IsFound l laws leaves limits id w0 goal part fd w1
              (λ e. apart_from prepared.directory prepared.part_name p.opened (e ∙ at_part)) kept1
              named start)
            (λ size w2 found.
              and_then l laws leaves limits id w0 goal
                (IsFound l laws leaves limits id w0 goal part fd) IsOpen
                (trim_part_file l laws limits fd metadata.file_size size w2) _
                (trim_part_file-IsFound l laws leaves limits id w0 goal part fd metadata.file_size
                  size w2 found)
                (λ offset w3 found'.
                  and_then l laws leaves limits id w0 goal
                    (IsStarted l laws leaves limits id w0 goal part fd) IsOpen
                    (start_progress l laws limits fd offset w3) _
                    (start_progress-IsStarted l laws leaves limits id w0 goal part fd offset w3
                      found')
                    (λ progress w4 (mine, sized, here, summed). record {
                      same_metadata = same;
                      same_final = p.final;
                      at_part = at_part;
                      holds = record {
                        mine = subst (λ (q : FilePath). Mine v q part fd w0 w4) (sym p.final) mine;
                        whole = sized;
                        here = here;
                        summed = summed;
                      };
                    }))))

  checked :
      (o : Outcome FileTransferResult UploadMetadata) (w : World)
      → Same v w0 w
      → Answers (λ m'. m' ≡ m) o
      → Ensures
          (λ m' w'. (m' ≡ m) × Same v w0 w')
          (Refuses l laws leaves limits request.header.request_id w0 (root ++ split m.filename))
          (o, w)
  checked (ok m') w same e = (e, same)
  checked (err r) w same bad = (bad, Same-Kept v (root ++ split m.filename) w0 w same)

  prepare_keeps :
      (m' : UploadMetadata) (w : World)
      → m' ≡ m
      → Same v w0 w
      → Ensures
          (λ p w'. IsPrepared laws root m p × Kept v (root ++ split m.filename) w0 w')
          (Refuses l laws leaves limits request.header.request_id w0 (root ++ split m.filename))
          (map_err unprepared_result (prepare_destination fs root m' w))
  prepare_keeps m' w e same = by_outcome (prepare_destination fs root m' w) (
      subst
        (λ (n : UploadMetadata).
          Ensures (λ p w'. Same v w w' × IsPrepared laws root n p) (λ u w'. Same v w w')
            (prepare_destination fs root m' w))
        e (prepare_destination-IsPrepared laws root m' w))
    where
      by_outcome :
          (o : Outcome Unprepared (PreparedDestination fs.Fd) × World)
          → Ensures (λ p w'. Same v w w' × IsPrepared laws root m p) (λ u w'. Same v w w') o
          → Ensures
              (λ p w'. IsPrepared laws root m p × Kept v (root ++ split m.filename) w0 w')
              (Refuses l laws leaves limits request.header.request_id w0 (root ++ split m.filename))
              (map_err unprepared_result o)
      by_outcome (ok p, w1) (same1, is) =
          (is, Same-Kept v (root ++ split m.filename) w0 w1 (Same-trans v w0 w w1 same same1))
      by_outcome (err u, w1) same1 = (
        unprepared_result-fails u,
        Same-Kept v (root ++ split m.filename) w0 w1 (Same-trans v w0 w w1 same same1),
      )

  within :
      (m' : UploadMetadata) (p : PreparedDestination fs.Fd) (w : World)
      → Kept v (root ++ split m.filename) w0 w
      → Ensures
          (λ u w'. Kept v (root ++ split m.filename) w0 w')
          (Refuses l laws leaves limits request.header.request_id w0 (root ++ split m.filename))
          (check_budget l laws limits m' p w, w)
  unfolding check_budget
  within m' p w kept = elim (Bool-cases (within_partial_budget fs p m' limits w)) [
    | inl fits ↦ rw (fits, check_budget) kept
    | inr full ↦ rw (full, check_budget) (refl, kept)
  ]

  open_transfer-Opens : Opens (open_transfer l laws limits root request w0)
  unfolding open_transfer
  open_transfer-Opens =
      let id = request.header.request_id in
      let goal = root ++ split m.filename in
      and_then l laws leaves limits id w0 goal (λ (m' : UploadMetadata) w'. (m' ≡ m) × Same v w0 w')
        IsOpen (check_request limits request, w0) _
        (checked (check_request limits request) w0 (Same-refl v w0)
          (check_request-same limits request m decoded))
        (λ m' w1 (e, same).
          and_then l laws leaves limits id w0 goal
            (λ (p : PreparedDestination fs.Fd) w'. IsPrepared laws root m p × Kept v goal w0 w')
            IsOpen (map_err unprepared_result (prepare_destination fs root m' w1)) _
            (prepare_keeps m' w1 e same)
            (λ p w2 (is, kept).
              and_then l laws leaves limits id w0 goal (λ (u : Unit {0}) w'. Kept v goal w0 w')
                IsOpen (check_budget l laws limits m' p w2, w2) _ (within m' p w2 kept)
                (λ u w3 kept3. open_part_file-Opens p m' w3 e is kept3)))

  reject_before_ready-IsDelivered :
      (r : FileTransferResult) (w : World)
      → Refuses l laws leaves limits request.header.request_id w0 (root ++ split m.filename) r w
      → IsDelivered v
          (root ++ split m.filename)
          m
          w0
          (reject_before_ready l laws limits request.header.request_id r w)
  unfolding reject_before_ready send_result frame_error make_frame
  reject_before_ready-IsDelivered r w (bad, kept) =
      let sent = send_result l request.header.request_id 0 (result_code_for_status r.status) w in
      let goal = root ++ split m.filename in
      let kept' =
        Kept-trans v goal w0 w sent.1 kept (Same-Kept v goal w sent.1 (leaves.send_law _ w)) in
      elim (Bool-cases (frame_io_ok sent.0.status)) [
        | inl fine ↦ rw (fine, reject_before_ready) (inr (bad, inl kept'))
        | inr broken ↦ rw (broken, reject_before_ready) (inr (refl, inl kept'))
      ]

  -- For a request whose metadata decode, on calls that behave as documented and with nothing
  -- else at work on the files: when receive_file succeeds, the destination path (the root and
  -- the components of the uploaded name) names a file whose length and CRC-32 are those of the
  -- metadata, and `transferred` is that length. When it does not, that path either names what
  -- it named before, with the same bytes, or such a file.
  pub receive_file-IsDelivered :
      IsDelivered v (root ++ split m.filename) m w0 (receive_file l laws limits root request w0)
  unfolding receive_file
  receive_file-IsDelivered =
      let id = request.header.request_id in
      let goal = root ++ split m.filename in
      handle_lem IsOpen (Refuses l laws leaves limits id w0 goal) (IsDelivered v goal m w0)
        (open_transfer l laws limits root request w0) _ _ open_transfer-Opens
        (λ r w1 h. reject_before_ready-IsDelivered r w1 h)
        (λ t w1 h.
          subst
            (λ (x : FilePath × UploadMetadata).
              IsDelivered v x.0 x.1 w0 (transfer l laws limits id t w1))
            (λ i. (h.same_final i, h.same_metadata i))
            (transfer-Ends l laws leaves limits id t w0 h.at_part w1 h.holds))
