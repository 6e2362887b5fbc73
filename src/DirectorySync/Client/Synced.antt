-- ===== src/DirectorySync/Client/Synced.antt =====
-- sync_directory of src/common/directory_sync.cpp: what a success has been through.
use syncwire.Common.{
  ℕ, ◌+◌, ◌-◌, ◌≤◌, ◌≡◌, ◌^◌, refl, sym, ap, subst, ◌∙◌, List, ◌||◌, ltb, ◌==◌, length, ok, Ensures,
  Ensures-then_do, handle_lem, then_do, Bool-cases, Outcome-cases, inl, inr, arith, map_err,
}
use syncwire.Protocol.{Frame, sync_plan, default_max_payload, sync_manifest}
use syncwire.SyncCodec.{FileRecord, SyncPlan, decode_sync_plan, encode_manifest}
use syncwire.Link.{Link}
use syncwire.PingPong.{is_empty}
use syncwire.DirectorySync.{
  DirectorySyncStatus, Destination, Result, make_frame, scan_failure, receive_control_frame,
}
use syncwire.DirectorySync.Client.{
  send_control_frame, check_manifest, check_plan, send_planned, conclude_sync, planned_result,
  follow_plan, run_sync, sync_directory,
}
use syncwire.DirectorySync.Client.Steps.{
  weakened, send_planned-Follows, send_control_frame-state, receive_control_frame-Received,
  check_plan-IsCounted, conclude_sync-Confirmed, Failed, Transfers, Follows, Received, IsCounted,
  Confirmed,
}

module _ (l : Link) (d : Destination l)
    (send_file : List ℕ → ℕ → l.World → d.Transfer × l.World) where
  open l use {World, send, receive}

  -- How a synchronization ends well: the files are scanned and the manifest sent; a frame with a plan
  -- comes back, which has one upload or one unchanged file for each of them; the planned files are sent
  -- in their order, under the request ids behind `id`; and the server confirms the result.
  pub record Synced (id : ℕ) (w : World) (r : Result l d) : Type 0 where
    pub files : List FileRecord
    pub plan_frame : Frame
    pub plan : SyncPlan
    pub last : World
    pub scanned : (d.scan_directory w).0 ≡ ok files
    pub answered :
        (receive
          (send (make_frame sync_manifest id (encode_manifest files)) (d.scan_directory w).1).1).0
        ≡ ok plan_frame
    pub decoded : decode_sync_plan plan_frame.payload d.max_entries ≡ ok plan
    pub counted : length plan.upload_paths + plan.unchanged_count ≡ length files
    pub transferred :
        Transfers l d send_file
          (id + 1)
          files
          plan.upload_paths
          (receive
            (send (make_frame sync_manifest id (encode_manifest files)) (d.scan_directory w).1).1).1
          last
    pub confirmed : Confirmed l d send_file id last
    pub completed : r.completed_uploads ≡ length plan.upload_paths
    pub unchanged : r.unchanged_files ≡ plan.unchanged_count

  abbrev Ended : ℕ → List FileRecord → SyncPlan → World → Result l d → World → Type 0
  Ended id files plan w r w' =
      (last : World) × Follows l d send_file (id + 1) files plan.upload_paths
        (planned_result l d send_file plan) w r last
      × Confirmed l d send_file id last

  follow_plan-Ended :
      (id : ℕ) (files : List FileRecord) (plan : SyncPlan) (w : World)
      → id + length plan.upload_paths ≤ 2 ^ 64 - 1
      → Ensures
          (Ended id files plan w)
          (Failed l d send_file)
          (follow_plan l d send_file id files plan w)
  unfolding follow_plan
  follow_plan-Ended id files plan w few =
      let start : Result l d = planned_result l d send_file plan in
      Ensures-then_do (Follows l d send_file (id + 0 + 1) files plan.upload_paths start w)
        (Ended id files plan w) (Failed l d send_file)
        (send_planned l d send_file id files plan.upload_paths 0 start w) _
        (send_planned-Follows l d send_file id files plan.upload_paths 0 start w
          (ground (arith, few)))
        (λ r w1 follows.
          weakened (λ r' w'. (r' ≡ r) × Confirmed l d send_file id w1) (Ended id files plan w)
            (Failed l d send_file) (conclude_sync l d send_file id r w1)
            (conclude_sync-Confirmed l d send_file id r w1)
            (λ r' w' (same, confirmed). (
              w1,
              subst
                  (λ (x : Result l d).
                    Follows l d send_file (id + 1) files plan.upload_paths start w x w1)
                  (sym same)
                  (subst (λ (n : ℕ). Follows l d send_file n files plan.upload_paths start w r w1)
                    {x = id + 0 + 1} (omega arith) follows),
              confirmed,
            )))

  check_manifest-state :
      (payload : List ℕ) (w : World)
      → Ensures (λ u w'. w' ≡ w) (Failed l d send_file) (check_manifest l d send_file payload, w)
  unfolding check_manifest
  check_manifest-state payload w =
      elim (Bool-cases (is_empty payload || ltb default_max_payload (length payload))) [
        | inl bad ↦ rw (check_manifest, bad) (λ h. cc h)
        | inr good ↦ rw (check_manifest, good) refl
      ]

  scanned-state :
      (w : World)
      → Ensures
          (λ files w'. ((d.scan_directory w).0 ≡ ok files) × (w' ≡ (d.scan_directory w).1))
          (Failed l d send_file)
          (map_err (scan_failure l d) (d.scan_directory w))
  unfolding scan_failure
  scanned-state w = elim (Outcome-cases (d.scan_directory w).0) [
    | inl (files, good) ↦ rw good (refl, refl)
    | inr (e, bad) ↦ rw bad (λ h. cc h)
  ]

  abbrev manifest_frame : ℕ → List FileRecord → Frame
  manifest_frame id files = make_frame sync_manifest id (encode_manifest files)

  -- From the answer to the manifest on.
  answer-Synced :
      (id : ℕ) (w : World)
      → id ≤ 2 ^ 64 - 1
      → (files : List FileRecord) → (d.scan_directory w).0 ≡ ok files
      → (w3 : World) → w3 ≡ (send (manifest_frame id files) (d.scan_directory w).1).1
      → Ensures
          (λ r w'. Synced id w r)
          (Failed l d send_file)
          (then_do (receive_control_frame l d sync_plan id w3) (λ plan_frame w4.
            then_do
              (check_plan l d send_file id files plan_frame, w4)
              (λ plan w5. follow_plan l d send_file id files plan w5)))
  answer-Synced id w small files scanned w3 at3 =
      Ensures-then_do (Received l d send_file w3) (λ r w'. Synced id w r) (Failed l d send_file)
        (receive_control_frame l d sync_plan id w3) _
        (receive_control_frame-Received l d send_file sync_plan id w3)
        (λ plan_frame w4 (got, at4).
          Ensures-then_do
            (λ plan w'.
              (decode_sync_plan plan_frame.payload d.max_entries ≡ ok plan)
              × IsCounted l d send_file id files plan
              × (w' ≡ w4))
            (λ r w'. Synced id w r) (Failed l d send_file)
            (check_plan l d send_file id files plan_frame, w4) _
            (check_plan-IsCounted l d send_file id files plan_frame w4 small)
            (λ plan w5 (decoded, (counted, few), at5).
              weakened (Ended id files plan w5) (λ r w'. Synced id w r) (Failed l d send_file)
                (follow_plan l d send_file id files plan w5)
                (follow_plan-Ended id files plan w5 few)
                (λ r w' (last, (sent, completed, planned, unchanged), confirmed). record {
                  files = files;
                  plan_frame = plan_frame;
                  plan = plan;
                  last = last;
                  scanned = scanned;
                  answered = subst (λ x. (receive x).0 ≡ ok plan_frame) at3 got;
                  decoded = decoded;
                  counted = counted;
                  transferred =
                      subst (λ x. Transfers l d send_file (id + 1) files plan.upload_paths x last)
                        (at5 ∙ (at4 ∙ ap (λ x. (receive x).1) at3)) sent;
                  confirmed = confirmed;
                  completed = omega (arith, completed);
                  unchanged = unchanged;
                })))

  run_sync-Synced :
      (id : ℕ) (w : World)
      → id ≤ 2 ^ 64 - 1
      → Ensures (λ r w'. Synced id w r) (Failed l d send_file) (run_sync l d send_file id w)
  unfolding run_sync
  run_sync-Synced id w small = elim (Bool-cases (id == 0)) [
    | inl none_ ↦ rw (run_sync, none_) (λ h. cc h)
    | inr some_ ↦
        rw (run_sync, some_)
          (Ensures-then_do
            (λ files w'. ((d.scan_directory w).0 ≡ ok files) × (w' ≡ (d.scan_directory w).1))
            (λ r w'. Synced id w r) (Failed l d send_file)
            (map_err (scan_failure l d) (d.scan_directory w)) _ (scanned-state w)
            (λ files w1 (scanned, at1).
              Ensures-then_do (λ u w'. w' ≡ w1) (λ r w'. Synced id w r) (Failed l d send_file)
                (check_manifest l d send_file (encode_manifest files), w1) _
                (check_manifest-state (encode_manifest files) w1)
                (λ u w2 at2.
                  Ensures-then_do (λ u' w'. w' ≡ (send (manifest_frame id files) w2).1)
                    (λ r w'. Synced id w r) (Failed l d send_file)
                    (send_control_frame l d send_file (manifest_frame id files) w2) _
                    (send_control_frame-state l d send_file (manifest_frame id files) w2)
                    (λ u' w3 at3.
                      answer-Synced id w small files scanned w3
                        (at3 ∙ ap (λ x. (send (manifest_frame id files) x).1) (at2 ∙ at1))))))
  ]

  -- When sync_directory with a 64-bit request id ends in success, it has scanned the source's files
  -- and sent their manifest; the frame that answered decodes to a plan that has an upload or an
  -- unchanged file for each of them; every planned path is that of a scanned file, and was sent, in the
  -- plan's order and with success, under request ids that follow `id` without wrapping; the server's
  -- frame after SyncComplete decodes to success; and the result counts the uploads and the unchanged
  -- files of the plan.
  pub sync_directory-Synced :
      (id : ℕ) (w : World)
      → id ≤ 2 ^ 64 - 1
      → (sync_directory l d send_file id w).0.status ≡ DirectorySyncStatus.success
      → Synced id w (sync_directory l d send_file id w).0
  unfolding sync_directory
  sync_directory-Synced id w small =
      handle_lem (λ r w'. Synced id w r) (Failed l d send_file)
        (λ x. x.0.status ≡ DirectorySyncStatus.success → Synced id w x.0)
        (run_sync l d send_file id w) _ _ (run_sync-Synced id w small)
        (λ e w' failed good. absurd (failed good)) (λ r w' synced good. synced)
