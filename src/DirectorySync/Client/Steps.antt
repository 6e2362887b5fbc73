-- ===== src/DirectorySync/Client/Steps.antt =====
-- The steps of sync_directory of src/common/directory_sync.cpp, and what each of them ensures.
use syncwire.Common.{
  ℕ, suc, ◌+◌, ◌-◌, ◌≤◌, ◌≡◌, ◌≢◌, ◌^◌, ◌%◌, refl, sym, subst, List, [], ◌∷◌, some, bytes_lt,
  bytes_eq, bytes_eq→eq, bytes_eq_self, not, ltb, ◌==◌, length, Outcome, ok, err, Ensures,
  Ensures-then_do, Bool-cases, Option-cases, Outcome-cases, inl, inr, arith, true,
}
use syncwire.Protocol.{Frame, MessageType, sync_complete, sync_result, type_eq}
use syncwire.SyncCodec.{FileRecord, SyncPlan, SyncResultCode, decode_sync_plan, decode_sync_result}
use syncwire.Plan.Differences.{lists}
use syncwire.FrameIo.{frame_io_ok}
use syncwire.Link.{Link}
use syncwire.DirectorySync.{
  DirectorySyncStatus, Destination, Result, make_frame, frame_error, receive_control_frame,
  check_control_frame,
}
use syncwire.DirectorySync.Client.{
  find_file, send_control_frame, check_plan, send_planned, check_sync_result, conclude_sync,
}

small_mod : (n : ℕ) → n ≤ 2 ^ 64 - 1 → n % 2 ^ 64 ≡ n
small_mod n small = omega arith

following : (id index n : ℕ) → n ≡ id + index + 1 → id + suc index + 1 ≡ suc n
following id index n e = omega arith

-- What find_file finds is listed under the very path.
find_file-lists :
    (files : List FileRecord) (path : List ℕ) (file : FileRecord)
    → find_file files path ≡ some file
    → lists path files ≡ true
unfolding find_file lists
find_file-lists [] path file e = cc e
find_file-lists (f ∷ files) path file e = elim (Bool-cases (bytes_lt f.path path)) [
  | inl below ↦ ground (arith, find_file-lists files path file (rw (find_file, below) at e))
  | inr above ↦ elim (Bool-cases (bytes_eq f.path path)) [
    | inr other ↦ cc (rw (find_file, above, other) at e)
    | inl same ↦ rw (sym (bytes_eq→eq f.path path same), bytes_eq_self f.path) refl
  ]
]

pub weakened :
    {E A W : Type 0} (P P' : A → W → Type 0) (Q : E → W → Type 0) (m : Outcome E A × W)
    → Ensures P Q m
    → ((a : A) (w : W) → P a w → P' a w)
    → Ensures P' Q m
weakened P P' Q (ok a, w) h k = k a w h
weakened P P' Q (err e, w) h k = h

module _ (l : Link) (d : Destination l)
    (send_file : List ℕ → ℕ → l.World → d.Transfer × l.World) where
  open l use {World, send, receive}

  abbrev pub Failed : Result l d → World → Type 0
  Failed e w = e.status ≢ DirectorySyncStatus.success

  -- The files at the paths are files of the source, and are sent one after the other, with the request
  -- ids that follow.
  abbrev pub Transfers : ℕ → List FileRecord → List (List ℕ) → World → World → Type 0
  Transfers next files [] w w' = w ≡ w'
  Transfers next files (path ∷ paths) w w' =
      (lists path files ≡ true)
      × (d.transfer_ok (send_file path next w).0 ≡ true)
      × Transfers (suc next) files paths (send_file path next w).1 w'

  abbrev pub Follows :
      ℕ → List FileRecord → List (List ℕ) → Result l d → World → Result l d → World → Type 0
  Follows next files paths result w r w' =
      Transfers next files paths w w'
      × (r.completed_uploads ≡ result.completed_uploads + length paths)
      × (r.planned_uploads ≡ result.planned_uploads)
      × (r.unchanged_files ≡ result.unchanged_files)

  pub send_planned-Follows :
      (id : ℕ) (files : List FileRecord) (paths : List (List ℕ)) (index : ℕ) (result : Result l d)
      (w : World)
      → id + index + length paths ≤ 2 ^ 64 - 1
      → Ensures
          (Follows (id + index + 1) files paths result w)
          Failed
          (send_planned l d send_file id files paths index result w)
  unfolding send_planned
  send_planned-Follows id files [] index result w few = (refl, omega arith, refl, refl)
  send_planned-Follows id files (path ∷ paths) index result w few =
      elim (Option-cases (find_file files path)) [
        | inl absent ↦ rw (absent, send_planned) (λ h. cc h)
        | inr (file, found) ↦
            let file_id = (id + index + 1) % 2 ^ 64 in
            let id_small : file_id ≡ id + index + 1 = small_mod _ (ground (arith, few)) in
            let done : Result l d = record result {
              completed_uploads = result.completed_uploads + 1;
            } in
            let w1 = (send_file path file_id w).1 in
            subst
              (λ (n : ℕ).
                Ensures (Follows n files (path ∷ paths) result w) Failed
                  (send_planned l d send_file id files (path ∷ paths) index result w))
              id_small
              (elim (Bool-cases (d.transfer_ok (send_file path file_id w).0)) [
                | inl good ↦
                    rw (send_planned, found, good)
                      (weakened (Follows (id + suc index + 1) files paths done w1)
                        (Follows file_id files (path ∷ paths) result w) Failed
                        (send_planned l d send_file id files paths (suc index) done w1)
                        (send_planned-Follows id files paths (suc index) done w1
                          (ground (arith, few)))
                        (λ r w' (sent, completed, planned, unchanged). (
                          (
                            find_file-lists files path file found,
                            good,
                            subst (λ (n : ℕ). Transfers n files paths w1 w')
                                (following id index file_id id_small) sent,
                          ),
                          ground (arith, completed),
                          planned,
                          unchanged,
                        )))
                | inr bad ↦ rw (send_planned, found, bad) (λ h. cc h)
              ])
      ]

  pub send_control_frame-state :
      (frame : Frame) (w : World)
      → Ensures (λ u w'. w' ≡ (send frame w).1) Failed (send_control_frame l d send_file frame w)
  unfolding send_control_frame frame_error
  send_control_frame-state frame w = elim (Bool-cases (frame_io_ok (send frame w).0.status)) [
    | inl fine ↦ rw (send_control_frame, fine) refl
    | inr broken ↦ rw (send_control_frame, broken) (λ h. cc h)
  ]

  abbrev pub Received : World → Frame → World → Type 0
  Received w frame w' = ((receive w).0 ≡ ok frame) × (w' ≡ (receive w).1)

  check_control_frame-same :
      (type : MessageType) (id : ℕ) (frame : Frame) (w : World)
      → Ensures (λ f w'. (frame ≡ f) × (w' ≡ w)) Failed (check_control_frame l d type id frame, w)
  unfolding check_control_frame
  check_control_frame-same type id frame w =
      elim (Bool-cases (not (frame.header.request_id == id))) [
        | inl bad ↦ rw (check_control_frame, bad) (λ h. cc h)
        | inr good ↦ elim (Bool-cases (not (frame.header.transfer_id == 0))) [
          | inl bad ↦ rw (check_control_frame, good, bad) (λ h. cc h)
          | inr good' ↦ elim (Bool-cases (not (type_eq frame.header.message_type type))) [
            | inl bad ↦ rw (check_control_frame, good, good', bad) (λ h. cc h)
            | inr good'' ↦ rw (check_control_frame, good, good', good'') (refl, refl)
          ]
        ]
      ]

  pub receive_control_frame-Received :
      (type : MessageType) (id : ℕ) (w : World)
      → Ensures (Received w) Failed (receive_control_frame l d type id w)
  unfolding receive_control_frame frame_error
  receive_control_frame-Received type id w = elim (Outcome-cases (receive w).0) [
    | inr (e, bad) ↦ rw (receive_control_frame, bad) (λ h. cc h)
    | inl (frame, got) ↦
        rw (receive_control_frame, got)
          (weakened (λ f w'. (frame ≡ f) × (w' ≡ (receive w).1)) (Received w) Failed
            (check_control_frame l d type id frame, (receive w).1)
            (check_control_frame-same type id frame (receive w).1)
            (λ f w' (same, there). (cc (same, got), there)))
  ]

  abbrev pub IsCounted : ℕ → List FileRecord → SyncPlan → Type 0
  IsCounted id files plan =
      (length plan.upload_paths + plan.unchanged_count ≡ length files)
      × (id + length plan.upload_paths ≤ 2 ^ 64 - 1)

  pub check_plan-IsCounted :
      (id : ℕ) (files : List FileRecord) (frame : Frame) (w : World)
      → id ≤ 2 ^ 64 - 1
      → Ensures
          (λ plan w'.
            (decode_sync_plan frame.payload d.max_entries ≡ ok plan)
            × IsCounted id files plan
            × (w' ≡ w))
          Failed
          (check_plan l d send_file id files frame, w)
  unfolding check_plan
  check_plan-IsCounted id files frame w small =
      elim (Outcome-cases (decode_sync_plan frame.payload d.max_entries)) [
        | inr (e, bad) ↦ rw (check_plan, bad) (λ h. cc h)
        | inl (plan, decoded) ↦
            elim (Bool-cases (length plan.upload_paths + plan.unchanged_count == length files)) [
              | inr bad ↦ rw (check_plan, decoded, bad) (λ h. cc h)
              | inl good ↦ elim (Bool-cases (ltb (2 ^ 64 - 1 - id) (length plan.upload_paths))) [
                | inl bad ↦ rw (check_plan, decoded, good, bad) (λ h. cc h)
                | inr few ↦
                    rw (check_plan, decoded, good, few)
                      (refl, (ground (arith, good), ground (arith, few, small)), refl)
              ]
            ]
      ]

  -- The server's answer to SyncComplete says that the destination is as it was planned.
  abbrev pub Confirmed : ℕ → World → Type 0
  Confirmed id w =
      (frame : Frame) × ((receive (send (make_frame sync_complete id []) w).1).0 ≡ ok frame)
      × (decode_sync_result frame.payload ≡ ok SyncResultCode.success)

  check_sync_result-success :
      (result : Result l d) (frame : Frame) (w : World)
      → Ensures
          (λ r w'. (r ≡ result) × (decode_sync_result frame.payload ≡ ok SyncResultCode.success))
          Failed
          (check_sync_result l d send_file result frame, w)
  unfolding check_sync_result
  check_sync_result-success result frame w =
      elim (Outcome-cases (decode_sync_result frame.payload)) [
        | inr (e, bad) ↦ rw (check_sync_result, bad) (λ h. cc h)
        | inl (SyncResultCode.success, good) ↦ rw (check_sync_result, good) (refl, refl)
        | inl (SyncResultCode.destination_changed, bad) ↦ rw (check_sync_result, bad) (λ h. cc h)
      ]

  pub conclude_sync-Confirmed :
      (id : ℕ) (result : Result l d) (w : World)
      → Ensures
          (λ r w'. (r ≡ result) × Confirmed id w)
          Failed
          (conclude_sync l d send_file id result w)
  unfolding conclude_sync
  conclude_sync-Confirmed id result w =
      Ensures-then_do (λ u w'. w' ≡ (send (make_frame sync_complete id []) w).1)
        (λ r w'. (r ≡ result) × Confirmed id w) Failed
        (send_control_frame l d send_file (make_frame sync_complete id []) w) _
        (send_control_frame-state (make_frame sync_complete id []) w)
        (λ u w1 sent.
          Ensures-then_do (Received w1) (λ r w'. (r ≡ result) × Confirmed id w) Failed
            (receive_control_frame l d sync_result id w1) _
            (receive_control_frame-Received sync_result id w1)
            (λ frame w2 (got, there).
              weakened
                (λ r w'.
                  (r ≡ result) × (decode_sync_result frame.payload ≡ ok SyncResultCode.success))
                (λ r w'. (r ≡ result) × Confirmed id w) Failed
                (check_sync_result l d send_file result frame, w2)
                (check_sync_result-success result frame w2)
                (λ r w' (same, good). (same, (frame, rw sent at got, good)))))
