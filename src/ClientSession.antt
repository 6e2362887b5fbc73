-- ===== src/ClientSession.antt =====
-- src/server/client_session.cpp: one authenticated session, with the synchronization's and the
-- transfers' parts put together. The destination lock, which keeps other sessions from the files
-- meanwhile, changes nothing in one session.
pub mod Admission
use syncwire.Common.{
  ℕ, Bool, true, false, not, List, [], ◌∷◌, Option, none, some, if◌then◌else◌, Outcome, ok, err,
}
use syncwire.Protocol.{Frame, MessageType, type_eq, ping, upload_request, sync_manifest}
use syncwire.FrameIo.{FrameIoResult}
use syncwire.Link.{Link}
use syncwire.PingPong.{
  PingPongStatus, PingPongResult, frame_io_default, succeeded, serve_ping_frame,
}
use syncwire.PingPong as PingPong
use syncwire.Authentication.{AuthenticationStatus, AuthenticationResult}
use syncwire.Authentication as Authentication
use syncwire.Authentication.Proof.{Crypto}
use syncwire.Authentication.Server.{authenticate_server}
use syncwire.SyncCodec.{FileRecord}
use syncwire.FileTransfer.{TransferLimits, FileTransferStatus, FileTransferResult, transfer_ok}
use syncwire.FileTransfer as FileTransfer
use syncwire.FileTransfer.Files.{FilePath, FileStatus, FileSystem, FileView, FileLaws}
use syncwire.FileTransfer.Commit.{receive_file}
use syncwire.DirectorySync.{
  DirectorySyncStatus, DirectorySyncResult, DirectoryScanError, Destination, receive_directory_sync,
}
use syncwire.DirectorySync as DirectorySync
use syncwire.DirectoryManifest.{DirectoryScanLimits, DirectoryScanResult, Forest, scan_directory}

pub data SessionOperation : Type 0 where
  unknown ping_operation upload_operation directory_sync : SessionOperation

pub data SessionStatus : Type 0 where
  success authentication_error frame_io_error ping_error : SessionStatus
  file_transfer_error directory_sync_error unsupported_message : SessionStatus

pub record ClientSessionResult : Type 0 where
  pub status : SessionStatus
  pub operation : SessionOperation
  pub request_id : ℕ
  pub authentication : AuthenticationResult
  pub frame_io : FrameIoResult
  pub ping_result : PingPongResult
  pub transfer : FileTransferResult
  pub sync : DirectorySyncResult FileTransferResult

-- AuthenticationResult::ok and DirectorySyncResult::ok, on the status.
abbrev pub authentication_ok : AuthenticationStatus → Bool
authentication_ok AuthenticationStatus.success = true
authentication_ok _ = false

abbrev pub sync_ok : DirectorySyncStatus → Bool
sync_ok DirectorySyncStatus.success = true
sync_ok _ = false

-- A scan's result, as its files or its error.
abbrev pub scan_outcome : DirectoryScanResult → Outcome (DirectoryScanError × ℕ) (List FileRecord)
scan_outcome result = elim result.error [
  | none ↦ ok result.files
  | some e ↦ err (e, result.system_error)
]

module _ (l : Link) (c : Crypto l.World) {fs : FileSystem l.World} {v : FileView fs}
    (laws : FileLaws v) (limits : TransferLimits) (scan_limits : DirectoryScanLimits)
    (root : FilePath) (visited : l.World → Forest) where
  open l use {World, receive}

  -- The server's files, as receive_directory_sync uses them. `visited` is what the iterator over the
  -- root meets.
  abbrev pub destination : Destination l
  destination = record {
    Transfer = FileTransferResult;
    no_transfer = FileTransfer.with_status FileTransferStatus.success;
    transfer_ok = λ r. transfer_ok r.status;
    max_entries = scan_limits.max_entries;
    max_file_size = scan_limits.max_file_size;
    create_directories = λ w. fs.create_directories root w;
    scan_directory =
        λ w. (scan_outcome (scan_directory scan_limits (fs.symlink_status root w) (visited w)), w);
    receive_file = λ request w. receive_file l laws limits root request w;
  }

  abbrev pub new_result : SessionStatus → ClientSessionResult
  new_result status = record {
    status = status;
    operation = SessionOperation.unknown;
    request_id = 0;
    authentication = Authentication.result_with AuthenticationStatus.success;
    frame_io = frame_io_default;
    ping_result = PingPong.result_with PingPongStatus.success;
    transfer = FileTransfer.with_status FileTransferStatus.success;
    sync = DirectorySync.with_status l destination DirectorySyncStatus.success;
  }

  -- The switch on the first frame.
  unfoldable pub dispatch : Frame → World → ClientSessionResult × World
  dispatch first_frame w =
      let result = record (new_result SessionStatus.success) {
        request_id = first_frame.header.request_id;
      } in
      let ponged = serve_ping_frame l first_frame w in
      let transferred = receive_file l laws limits root first_frame w in
      let synced = receive_directory_sync l destination first_frame w in
      if type_eq first_frame.header.message_type ping
      then (
        record result {
          operation = SessionOperation.ping_operation;
          ping_result = ponged.0;
          status =
              if succeeded ponged.0.status then SessionStatus.success else SessionStatus.ping_error;
        },
        ponged.1,
      )
      else if type_eq first_frame.header.message_type upload_request
      then (
        record result {
          operation = SessionOperation.upload_operation;
          transfer = transferred.0;
          status =
              if transfer_ok transferred.0.status
              then SessionStatus.success
              else SessionStatus.file_transfer_error;
        },
        transferred.1,
      )
      else if type_eq first_frame.header.message_type sync_manifest
      then (
        record result {
          operation = SessionOperation.directory_sync;
          sync = synced.0;
          status =
              if sync_ok synced.0.status
              then SessionStatus.success
              else SessionStatus.directory_sync_error;
        },
        synced.1,
      )
      else (record result { status = SessionStatus.unsupported_message }, w)

  unfoldable pub serve_client_session : List ℕ → World → ClientSessionResult × World
  unfolding dispatch
  serve_client_session secret w =
      let authentication = authenticate_server l c secret w in
      let received = receive authentication.1 in
      if not (authentication_ok authentication.0.status)
      then (
        record (new_result SessionStatus.authentication_error) {
          authentication = authentication.0;
        },
        authentication.1,
      )
      else elim received.0 [
        | err error ↦
            (record (new_result SessionStatus.frame_io_error) { frame_io = error }, received.1)
        | ok first_frame ↦ dispatch first_frame received.1
      ]
