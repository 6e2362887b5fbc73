-- ===== src/ClientSession/Admission.antt =====
-- src/server/client_session.cpp: what a session that has served anything has been through.
use syncwire.Common.{
  ℕ, ◌≡◌, ◌≢◌, refl, true, false, not, ◌||◌, ◌==◌, List, ◌++◌, ok, err, Outcome-cases, Bool-cases,
  inl, inr,
}
use syncwire.Protocol.{Frame, type_eq, type_eq→eq, ping, upload_request, sync_manifest}
use syncwire.FrameIo.{frame_io_ok}
use syncwire.Link.{Link}
use syncwire.Paths.Components.{split}
use syncwire.TransferCodec.{UploadMetadata, TransferCodecError, decode_upload_metadata}
use syncwire.Authentication.{AuthenticationStatus}
use syncwire.Authentication.Proof.{Crypto, CryptoLaws}
use syncwire.Authentication.Server.{authenticate_server}
use syncwire.Authentication.Server.Sound.{Admitted, authenticate_server-Admitted}
use syncwire.FileTransfer.{
  TransferLimits, FileTransferResult, transfer_ok, valid_limits, frame_error, send_result,
  result_code_for_status,
}
use syncwire.FileTransfer.Files.{FilePath, FileSystem, FileView, FileLaws}
use syncwire.FileTransfer.Receive.{check_request, open_transfer, reject_before_ready}
use syncwire.FileTransfer.Receive.Checks.{metadata_status-fails}
use syncwire.FileTransfer.Store.Holds.{LeavesFiles}
use syncwire.FileTransfer.Commit.{receive_file}
use syncwire.FileTransfer.Commit.Delivered.{Committed}
use syncwire.FileTransfer.Commit.Whole.{receive_file-IsDelivered}
use syncwire.DirectoryManifest.{DirectoryScanLimits, Forest}
use syncwire.ClientSession.{
  SessionOperation, SessionStatus, ClientSessionResult, authentication_ok, dispatch,
  serve_client_session,
}

check_request-refuses :
    (limits : TransferLimits) (request : Frame) (e : TransferCodecError)
    → decode_upload_metadata request.payload ≡ err e
    → (r : FileTransferResult) × (check_request limits request ≡ err r)
      × (transfer_ok r.status ≡ false)
unfolding check_request
check_request-refuses limits request e d =
    elim (Bool-cases (
      not (type_eq request.header.message_type upload_request)
      || (not (request.header.transfer_id == 0)
          || (request.header.request_id == 0 || not (valid_limits limits))))) [
            | inl bad ↦ rw (bad, check_request) (_, refl, refl)
            | inr good ↦ rw (good, check_request, d) (_, refl, metadata_status-fails e)
          ]

authentication_ok-success :
    (s : AuthenticationStatus) → authentication_ok s ≡ true → s ≡ AuthenticationStatus.success
authentication_ok-success AuthenticationStatus.success e = refl
authentication_ok-success AuthenticationStatus.invalid_secret e = cc e
authentication_ok-success AuthenticationStatus.random_generation_error e = cc e
authentication_ok-success AuthenticationStatus.crypto_error e = cc e
authentication_ok-success AuthenticationStatus.frame_io_error e = cc e
authentication_ok-success AuthenticationStatus.invalid_challenge e = cc e
authentication_ok-success AuthenticationStatus.invalid_proof e = cc e
authentication_ok-success AuthenticationStatus.invalid_result e = cc e
authentication_ok-success AuthenticationStatus.invalid_server_proof e = cc e
authentication_ok-success AuthenticationStatus.rejected e = cc e

module _ (l : Link) {fs : FileSystem l.World} {v : FileView fs} (laws : FileLaws v)
    (leaves : LeavesFiles l v) (limits : TransferLimits) (root : FilePath) (request : Frame)
    (w : l.World) where
  receive_file-refuses :
      (e : TransferCodecError)
      → decode_upload_metadata request.payload ≡ err e
      → transfer_ok (receive_file l laws limits root request w).0.status ≡ false
  unfolding receive_file open_transfer reject_before_ready frame_error
  receive_file-refuses e d =
      let (r, refused, bad) = check_request-refuses limits request e d in
      let sent = send_result l request.header.request_id 0 (result_code_for_status r.status) w in
      elim (Bool-cases (frame_io_ok sent.0.status)) [
        | inl fine ↦ rw (refused, receive_file, fine) bad
        | inr broken ↦ rw (refused, receive_file, broken) refl
      ]

  -- A success is that of the upload that was asked for: its file is in its place.
  receive_file-Committed :
      transfer_ok (receive_file l laws limits root request w).0.status ≡ true
      → (m : UploadMetadata) × (decode_upload_metadata request.payload ≡ ok m)
        × Committed v (root ++ split m.filename) m (receive_file l laws limits root request w).1
  receive_file-Committed good = elim (Outcome-cases (decode_upload_metadata request.payload)) [
    | inr (e, d) ↦ cc (good, receive_file-refuses e d)
    | inl (m, d) ↦ elim (receive_file-IsDelivered l laws leaves limits root request m d w) [
      | inl (fine, all, there) ↦ (m, d, there)
      | inr (bad, fate) ↦ cc (good, bad)
    ]
  ]

module _ (l : Link) (c : Crypto l.World) (crypto_laws : CryptoLaws c) {fs : FileSystem l.World}
    {v : FileView fs} (laws : FileLaws v) (leaves : LeavesFiles l v) (limits : TransferLimits)
    (scan_limits : DirectoryScanLimits) (root : FilePath) (visited : l.World → Forest) where
  open l use {World, receive}

  abbrev pub Session : List ℕ → World → ClientSessionResult × World
  Session secret w = serve_client_session l c laws limits scan_limits root visited secret w

  -- The file that a frame asks to upload is in its place.
  abbrev pub Delivered : Frame → World → Type 0
  Delivered request w =
      (request.header.message_type ≡ upload_request)
      × (m : UploadMetadata) × (decode_upload_metadata request.payload ≡ ok m)
      × Committed v (root ++ split m.filename) m w

  abbrev IsUploaded : (World → Type 0) → ClientSessionResult × World → Type 0
  IsUploaded P (r, w) =
      r.operation ≡ SessionOperation.upload_operation → r.status ≡ SessionStatus.success → P w

  dispatch-IsUploaded :
      (frame : Frame) (w : World)
      → IsUploaded (Delivered frame) (dispatch l c laws limits scan_limits root visited frame w)
  unfolding dispatch
  dispatch-IsUploaded frame w = elim (Bool-cases (type_eq frame.header.message_type ping)) [
    | inl pinged ↦ rw (pinged, dispatch) (λ e s. cc e)
    | inr no_ping ↦ elim (Bool-cases (type_eq frame.header.message_type upload_request)) [
      | inl uploads ↦
          elim (Bool-cases (transfer_ok (receive_file l laws limits root frame w).0.status)) [
            | inl good ↦
                rw (no_ping, dispatch, uploads)
                  (λ e s.
                    let (m, decoded, there) =
                      receive_file-Committed l laws leaves limits root frame w good in
                    (
                      type_eq→eq frame.header.message_type upload_request uploads,
                      m,
                      decoded,
                      there,
                    ))
            | inr bad ↦ rw (no_ping, dispatch, uploads, bad) (λ e s. cc s)
          ]
      | inr no_upload ↦ elim (Bool-cases (type_eq frame.header.message_type sync_manifest)) [
        | inl syncs ↦ rw (no_ping, dispatch, no_upload, syncs) (λ e s. cc e)
        | inr other ↦ rw (no_ping, dispatch, no_upload, other) (λ e s. cc e)
      ]
    ]
  ]

  -- A session that has taken up an operation has a peer that authenticate_server admits: its proof
  -- carries the code, under the secret, of this session's nonce.
  pub serve_client_session-Admitted :
      (secret : List ℕ) (w : World)
      → (Session secret w).0.operation ≢ SessionOperation.unknown
      → Admitted l c crypto_laws secret w
  unfolding serve_client_session
  serve_client_session-Admitted secret w some_operation =
      elim (Bool-cases (authentication_ok (authenticate_server l c secret w).0.status)) [
        | inr refused ↦ absurd (some_operation (rw (refused, serve_client_session) refl))
        | inl accepted ↦
            authenticate_server-Admitted l c crypto_laws secret w
              (authentication_ok-success _ accepted)
      ]

  -- The first frame of the session has been received, and what it asks to upload is in its place.
  abbrev pub Served : List ℕ → World → World → Type 0
  Served secret w w' =
      (request : Frame) × ((receive (authenticate_server l c secret w).1).0 ≡ ok request)
      × Delivered request w'

  session-IsUploaded :
      (secret : List ℕ) (w : World) → IsUploaded (Served secret w) (Session secret w)
  unfolding serve_client_session
  session-IsUploaded secret w =
      elim (Bool-cases (authentication_ok (authenticate_server l c secret w).0.status)) [
        | inr refused ↦ rw (refused, serve_client_session) (λ e s. cc e)
        | inl accepted ↦ elim (Outcome-cases (receive (authenticate_server l c secret w).1).0) [
          | inr (io, r) ↦ rw (accepted, serve_client_session, r) (λ e s. cc e)
          | inl (frame, r) ↦
              rw (accepted, serve_client_session, r)
                (λ e s. (
                  frame,
                  refl,
                  dispatch-IsUploaded frame (receive (authenticate_server l c secret w).1).1 e s,
                ))
        ]
      ]

  -- On calls that behave as documented and with nothing else at work on the files: when a session ends
  -- in success after an upload, its peer was admitted by authenticate_server, the frame received next
  -- is an upload request whose metadata decode, and in the end the root and the components of the name
  -- in those metadata lead to a file with their size and CRC-32.
  pub serve_client_session-Committed :
      (secret : List ℕ) (w : World)
      → (Session secret w).0.operation ≡ SessionOperation.upload_operation
      → (Session secret w).0.status ≡ SessionStatus.success
      → Admitted l c crypto_laws secret w × Served secret w (Session secret w).1
  serve_client_session-Committed secret w uploads good = (
    serve_client_session-Admitted secret w (λ none_. cc (none_, uploads)),
    session-IsUploaded secret w uploads good,
  )
