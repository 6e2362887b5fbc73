-- ===== src/FileTransfer/Receive/Checks.antt =====
-- receive_file of src/common/file_transfer.cpp: its checks of the request, and what they let through.
use syncwire.Common.{
  ℕ, ◌≡◌, ◌≢◌, refl, ap, sym, ◌∙◌, true, false, List, [], ◌∷◌, ◌++◌, not, ◌||◌, ltb, ◌==◌, Outcome,
  ok, err, arith, Bool-cases, inl, inr, bytes_eq,
}
use syncwire.Protocol.{Frame, type_eq, upload_request}
use syncwire.Paths.{partial_directory, is_bad_component, is_safe_remote_path}
use syncwire.Paths.Components.{split, all_good, is_safe_spec, is_safe_remote_path_lem}
use syncwire.TransferCodec.{TransferCodecError, UploadMetadata, decode_upload_metadata}
use syncwire.FileTransfer.{TransferLimits, FileTransferResult, transfer_ok, valid_limits}
use syncwire.FileTransfer.Destination.{Unprepared, path_invalid, system_failed}
use syncwire.FileTransfer.Receive.{metadata_status, check_request, unprepared_result}

pub metadata_status-fails : (e : TransferCodecError) → transfer_ok (metadata_status e) ≡ false
unfolding metadata_status
metadata_status-fails TransferCodecError.unsafe_filename = refl
metadata_status-fails TransferCodecError.empty_filename = refl
metadata_status-fails TransferCodecError.filename_too_long = refl
metadata_status-fails TransferCodecError.payload_too_short = refl
metadata_status-fails TransferCodecError.payload_size_mismatch = refl
metadata_status-fails TransferCodecError.chunk_has_no_data = refl
metadata_status-fails TransferCodecError.unknown_result_code = refl

pub unprepared_result-fails : (e : Unprepared) → transfer_ok (unprepared_result e).status ≡ false
unfolding unprepared_result
unprepared_result-fails path_invalid = refl
unprepared_result-fails (system_failed n) = refl

abbrev pub Answers : {A : Type 0} → (A → Type 0) → Outcome FileTransferResult A → Type 0
Answers P (ok a) = P a
Answers P (err r) = transfer_ok r.status ≡ false

pub check_request-same :
    (limits : TransferLimits) (request : Frame) (m : UploadMetadata)
    → decode_upload_metadata request.payload ≡ ok m
    → Answers (λ m'. m' ≡ m) (check_request limits request)
unfolding check_request
check_request-same limits request m d =
    elim (Bool-cases (
      not (type_eq request.header.message_type upload_request)
      || (not (request.header.transfer_id == 0)
          || (request.header.request_id == 0 || not (valid_limits limits))))) [
            | inl bad ↦ rw (bad, check_request) refl
            | inr good ↦ elim (Bool-cases (ltb limits.max_file_size m.file_size)) [
              | inl large ↦ rw (good, check_request, d, large) refl
              | inr small ↦ rw (good, check_request, d, small) refl
            ]
          ]

pub decode_upload_metadata-safe :
    (payload : List ℕ) (m : UploadMetadata)
    → decode_upload_metadata payload ≡ ok m
    → is_safe_remote_path m.filename ≡ true
unfolding decode_upload_metadata
decode_upload_metadata-safe payload m e = ground arith

-- No component of an uploaded path is the directory of the partial files.
pub not_partial :
    (payload : List ℕ) (m : UploadMetadata) (cs : List (List ℕ))
    → decode_upload_metadata payload ≡ ok m
    → split m.filename ≢ partial_directory ∷ cs
unfolding is_safe_spec
not_partial payload m cs e same =
    let safe = sym (is_safe_remote_path_lem m.filename) ∙ decode_upload_metadata-safe payload m e in
    let good : all_good (split m.filename) ≡ true = ground (arith, safe) in
    let bad : all_good (partial_directory ∷ cs) ≡ false =
      unfold all_good is_bad_component bytes_eq in refl in
    cc (ap all_good same, good, bad)

pub append-cancel : {A : Type 0} (xs ys zs : List A) → xs ++ ys ≡ xs ++ zs → ys ≡ zs
append-cancel [] ys zs e = e
append-cancel (x ∷ xs) ys zs e = append-cancel xs ys zs (cc e)
