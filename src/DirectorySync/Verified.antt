-- ===== src/DirectorySync/Verified.antt =====
-- What a success of receive_directory_sync (src/common/directory_sync.cpp) has verified.
use syncwire.Common.{
  ℕ, suc, ◌+◌, ◌-◌, ◌%◌, ◌≡◌, ◌≢◌, ◌<◌, ◌^◌, refl, Bool, true, false, List, [], ◌∷◌, not, ◌||◌, ltb,
  ◌==◌, length, All, Outcome, ok, err, Bool-cases, Option-cases, Outcome-cases, inl, inr,
}
use syncwire.Protocol.{
  Frame, MessageType, type_eq, sync_manifest, sync_plan, sync_complete, sync_result,
  default_max_payload, transfer_result,
}
use syncwire.TransferCodec.{TransferResultCode, encode_transfer_result}
use syncwire.SyncCodec.{
  FileRecord, SyncPlan, SyncResultCode, decode_manifest, encode_sync_plan, encode_sync_result,
}
use syncwire.Plan.{build_sync_plan}
use syncwire.Plan.Differences.{holds, IsSorted}
use syncwire.Plan.Correct.{build_sync_plan-nil_iff}
use syncwire.FrameIo.{frame_io_ok}
use syncwire.PingPong.{is_empty}
use syncwire.Link.{Link}
use syncwire.DirectorySync.{
  DirectorySyncStatus, Destination, make_frame, is_planned_upload, any_too_large, no_paths, Result,
  frame_error, check_control_frame, receive_control_frame, conclude, verify, await_complete,
  reject_upload, receive_uploads, send_plan, plan_uploads, prepare_destination,
  receive_directory_sync,
}

no_paths-nil : (ps : List (List ℕ)) → no_paths ps ≡ true → ps ≡ []
no_paths-nil [] h = refl
no_paths-nil (p ∷ ps) h = cc h

module _ (l : Link) (d : Destination l) where
  open l use {World, send, receive}

  abbrev Succeeds : Result l d × World → Type 0
  Succeeds r = r.0.status ≡ DirectorySyncStatus.success

  abbrev success_frame : ℕ → Frame
  success_frame id = make_frame sync_result id (encode_sync_result SyncResultCode.success)

  -- The way to the last state: a scan of the destination's files, for which no upload is left to plan,
  -- and then the result frame that says so.
  pub record Verified (id : ℕ) (source : List FileRecord) (last : World) : Type 0 where
    pub before : World
    pub files : List FileRecord
    pub scanned : (d.scan_directory before).0 ≡ ok files
    pub nothing_left : (build_sync_plan source files).upload_paths ≡ []
    pub reported : (send (success_frame id) (d.scan_directory before).1).1 ≡ last

  conclude-good :
      (id : ℕ) (r : Result l d) (good : Bool) (w : World)
      → Succeeds (conclude l d id r good w)
      → (good ≡ true) × ((send (success_frame id) w).1 ≡ (conclude l d id r good w).1)
  unfolding conclude
  conclude-good id r true w h =
      elim (Bool-cases (frame_io_ok (send (success_frame id) w).0.status)) [
        | inl sent ↦ rw (conclude, sent) (refl, refl)
        | inr bad ↦ rw (conclude, bad) (refl, refl)
      ]
  conclude-good id r false w h =
      elim (Bool-cases (
        frame_io_ok
          (send (make_frame sync_result id (encode_sync_result SyncResultCode.destination_changed))
            w).0.status)) [
              | inl sent ↦ cc (rw (conclude, sent) at h)
              | inr bad ↦ cc (rw (conclude, bad) at h)
            ]

  verify-Verified :
      (id : ℕ) (source : List FileRecord) (r : Result l d) (w : World)
      → Succeeds (verify l d id source r w)
      → Verified id source (verify l d id source r w).1
  unfolding verify
  verify-Verified id source r w h = elim (Outcome-cases (d.scan_directory w).0) [
    | inr (e, bad) ↦ cc (rw (verify, bad) at h)
    | inl (files, scanned) ↦
        let (good, reported) = conclude-good id r _ _ (rw (verify, scanned) at h) in
        rw (verify, scanned)
          (record {
            before = w;
            files = files;
            scanned = scanned;
            nothing_left = no_paths-nil _ good;
            reported = reported;
          })
  ]

  check_control_frame-failed :
      (type : MessageType) (id : ℕ) (f : Frame) (r : Result l d)
      → check_control_frame l d type id f ≡ err r
      → r.status ≢ DirectorySyncStatus.success
  unfolding check_control_frame
  check_control_frame-failed type id f r e good = elim (Bool-cases (f.header.request_id == id)) [
    | inr bad ↦ failed _ (rw (check_control_frame, bad) at e) (λ c. cc c)
    | inl same ↦ elim (Bool-cases (f.header.transfer_id == 0)) [
      | inr bad ↦ failed _ (rw (check_control_frame, same, bad) at e) (λ c. cc c)
      | inl zero ↦ elim (Bool-cases (type_eq f.header.message_type type)) [
        | inr bad ↦ failed _ (rw (check_control_frame, same, zero, bad) at e) (λ c. cc c)
        | inl right ↦ cc (rw (check_control_frame, same, zero, right) at e)
      ]
    ]
  ]
    where
      failed :
          (r' : Result l d)
          → ◌≡◌ {A = Outcome (Result l d) Frame} (err r') (err r)
          → r'.status ≢ DirectorySyncStatus.success
          → ⊥
      failed r' same bad = bad (cc (same, good))

  await_complete-Verified :
      (id : ℕ) (source : List FileRecord) (r : Result l d) (w : World)
      → Succeeds (await_complete l d id source r w)
      → Verified id source (await_complete l d id source r w).1
  unfolding await_complete receive_control_frame frame_error
  await_complete-Verified id source r w h = elim (Outcome-cases (receive w).0) [
    | inr (e, bad) ↦ cc (rw (await_complete, receive_control_frame, bad) at h)
    | inl (f, got) ↦ elim (Outcome-cases (check_control_frame l d sync_complete id f)) [
      | inr (e, bad) ↦ absurd (
          check_control_frame-failed sync_complete id f e bad
            (rw (await_complete, receive_control_frame, got, bad) at h))
      | inl (g, good) ↦ elim (Bool-cases (is_empty g.payload)) [
        | inr bad ↦ cc (rw (await_complete, receive_control_frame, got, good, bad) at h)
        | inl empty ↦
            rw (await_complete, receive_control_frame, got, good, empty)
              (verify-Verified id source r _
                (rw (await_complete, receive_control_frame, got, good, empty) at h))
      ]
    ]
  ]

  reject_upload-failed :
      (id : ℕ) (w : World) → (reject_upload l d id w).0.status ≢ DirectorySyncStatus.success
  unfolding reject_upload frame_error
  reject_upload-failed id w h =
      elim (Bool-cases (
        frame_io_ok
          (send
            (make_frame transfer_result id
              (encode_transfer_result TransferResultCode.unexpected_frame))
            w).0.status)) [
              | inl sent ↦ cc (rw (reject_upload, sent) at h)
              | inr bad ↦ cc (rw (reject_upload, bad) at h)
            ]

  receive_uploads-Verified :
      (id : ℕ) (source : List FileRecord) (paths : List (List ℕ)) (r : Result l d) (index : ℕ)
      (w : World)
      → Succeeds (receive_uploads l d id source r paths index w)
      → Verified id source (receive_uploads l d id source r paths index w).1
  unfolding receive_uploads frame_error
  receive_uploads-Verified id source [] r index w h = await_complete-Verified id source r w h
  receive_uploads-Verified id source (path ∷ paths) r index w h =
      elim (Outcome-cases (receive w).0) [
        | inr (e, bad) ↦ cc (rw (receive_uploads, bad) at h)
        | inl (f, got) ↦ elim (Bool-cases (is_planned_upload f ((id + index + 1) % 2 ^ 64) path)) [
          | inr bad ↦ absurd (
              reject_upload-failed f.header.request_id (receive w).1
                (rw (receive_uploads, got, bad) at h))
          | inl planned ↦ elim (Bool-cases (d.transfer_ok (d.receive_file f (receive w).1).0)) [
            | inr bad ↦ cc (rw (receive_uploads, got, planned, bad) at h)
            | inl good ↦
                rw (receive_uploads, got, planned, good)
                  (receive_uploads-Verified id source paths _ (suc index) _
                    (rw (receive_uploads, got, planned, good) at h))
          ]
        ]
      ]

  send_plan-Verified :
      (id : ℕ) (source : List FileRecord) (plan : SyncPlan) (w : World)
      → Succeeds (send_plan l d id source plan w)
      → Verified id source (send_plan l d id source plan w).1
  unfolding send_plan frame_error
  send_plan-Verified id source plan w h =
      elim (Bool-cases (ltb (2 ^ 64 - 1 - id) (length plan.upload_paths))) [
        | inl bad ↦ cc (rw (send_plan, bad) at h)
        | inr ids ↦
            elim (Bool-cases (
              is_empty (encode_sync_plan plan)
              || ltb default_max_payload (length (encode_sync_plan plan)))) [
                | inl bad ↦ cc (rw (send_plan, ids, bad) at h)
                | inr fits ↦
                    elim (Bool-cases (
                      frame_io_ok
                        (send (make_frame sync_plan id (encode_sync_plan plan)) w).0.status)) [
                          | inr bad ↦ cc (rw (send_plan, ids, fits, bad) at h)
                          | inl sent ↦
                              rw (send_plan, ids, fits, sent)
                                (receive_uploads-Verified id source plan.upload_paths _ 0 _
                                  (rw (send_plan, ids, fits, sent) at h))
                        ]
              ]
      ]

  prepare_destination-Verified :
      (id : ℕ) (source : List FileRecord) (w : World)
      → Succeeds (prepare_destination l d id source w)
      → Verified id source (prepare_destination l d id source w).1
  unfolding prepare_destination plan_uploads
  prepare_destination-Verified id source w h =
      elim (Bool-cases (any_too_large d.max_file_size source)) [
        | inl bad ↦ cc (rw (prepare_destination, bad) at h)
        | inr small ↦ elim (Option-cases (d.create_directories w).0) [
          | inr (e, bad) ↦ cc (rw (prepare_destination, small, bad) at h)
          | inl made ↦ elim (Outcome-cases (d.scan_directory (d.create_directories w).1).0) [
            | inr (e, bad) ↦ cc (rw (prepare_destination, small, made, plan_uploads, bad) at h)
            | inl (files, scanned) ↦
                rw (prepare_destination, small, made, plan_uploads, scanned)
                  (send_plan-Verified id source (build_sync_plan source files) _
                    (rw (prepare_destination, small, made, plan_uploads, scanned) at h))
          ]
        ]
      ]

  -- When receive_directory_sync succeeds on a frame whose manifest decodes to `source`, it has, as its
  -- last two actions, scanned the destination and sent the result that reports success; and for
  -- the files of that scan no upload is left to plan.
  pub receive_directory_sync-Verified :
      (frame : Frame) (source : List FileRecord) (w : World)
      → decode_manifest frame.payload d.max_entries ≡ ok source
      → Succeeds (receive_directory_sync l d frame w)
      → Verified frame.header.request_id source (receive_directory_sync l d frame w).1
  unfolding receive_directory_sync
  receive_directory_sync-Verified frame source w decoded h =
      elim (Bool-cases (
        not (type_eq frame.header.message_type sync_manifest)
        || (frame.header.request_id == 0 || not (frame.header.transfer_id == 0)))) [
          | inl bad ↦ cc (rw (receive_directory_sync, bad) at h)
          | inr good ↦
              rw (receive_directory_sync, good, decoded)
                (prepare_destination-Verified frame.header.request_id source w
                  (rw (receive_directory_sync, good, decoded) at h))
        ]

  -- When receive_directory_sync succeeds on a frame whose manifest decodes to `source`, and when scans list fewer than 2 ^ 32 files in strictly rising order and the manifest does so
  -- too: in the scan that comes right before the report of success, the destination holds every file
  -- of the manifest with its size and checksum.
  pub receive_directory_sync-holds :
      (frame : Frame) (source : List FileRecord) (w : World)
      → ((w' : World) (files : List FileRecord)
          → (d.scan_directory w').0 ≡ ok files
          → IsSorted files × (length files < 2 ^ 32))
      → decode_manifest frame.payload d.max_entries ≡ ok source
      → IsSorted source
      → length source < 2 ^ 32
      → Succeeds (receive_directory_sync l d frame w)
      → (before : World) × (files : List FileRecord) × ((d.scan_directory before).0 ≡ ok files)
        × ((send (success_frame frame.header.request_id) (d.scan_directory before).1).1
            ≡ (receive_directory_sync l d frame w).1)
        × All (λ (f : FileRecord). holds f files ≡ true) source
  receive_directory_sync-holds frame source w scans decoded sorted few h =
      let v = receive_directory_sync-Verified frame source w decoded h in
      let (files_sorted, files_few) = scans v.before v.files v.scanned in
      (
        v.before,
        v.files,
        v.scanned,
        v.reported,
        (build_sync_plan-nil_iff source v.files sorted files_sorted few files_few).0 v.nothing_left,
      )
