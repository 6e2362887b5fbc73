-- ===== src/Tests/Sessions.antt =====
-- A session on the file system in memory, in which a peer that knows the secret uploads a file.
use syncwire.Common.{◌≡◌, refl, ◌∷◌, bytes_eq}
use syncwire.Protocol.{type_eq, type_code}
use syncwire.Crc32.{update, value}
use syncwire.Paths.{is_safe_remote_path, has_forbidden, find, is_bad_component, components_loop}
use syncwire.Paths.Components.{split}
use syncwire.TransferCodec.{
  encode_upload_metadata, decode_upload_metadata, encode_file_chunk, decode_file_chunk,
  encode_offset, encode_transfer_ready, encode_transfer_result, result_code,
}
use syncwire.FileTransfer.{
  make_frame, valid_limits, frame_error, result_code_for_status, send_result,
}
use syncwire.FileTransfer.Commit.{
  receive_file, check_content, commit, end_transfer, interrupt, receive_chunks, reject_transfer,
  report, send_success, settle, success_result, sync_directories, transfer,
}
use syncwire.Tests.Disk.{
  Disk, lookup, disk_laws, disk_link, disk_link_leaves, path_eq, remove, links,
}
use syncwire.Wire.{append_u32, append_u64, append_u16, get_u16, get_u64, be_loop, get_u32, get_u8}
use syncwire.FileTransfer.Destination.{
  prepare_destination, within_partial_budget, budget_loop, digest_of, ensure_directory,
  ensure_parents, hex_key, make_state_root, open_state_root,
}
use syncwire.FileTransfer.Blocks.{read_loop, read_next, write_loop, write_next}
use syncwire.FileTransfer.Reading.{read_partial_prefix}
use syncwire.FileTransfer.Receive.{
  check_budget, check_chunk, check_part_file, check_range, check_request, metadata_status,
  open_part_file, open_transfer, reject_before_ready, start_progress, trim_part_file,
  unprepared_result,
}
use syncwire.FileTransfer.Store.{
  acknowledge, loop_next, receive_chunk, receive_loop, restart, round, store_chunk, sync_part,
}
use syncwire.FileTransfer.Writing.{write_all}
use syncwire.ClientSession.{SessionOperation, SessionStatus, serve_client_session, dispatch}
use syncwire.ClientSession.Admission.{Served, serve_client_session-Committed}
use syncwire.Authentication.Server.{authenticate_server}
use syncwire.Authentication.Server.Sound.{Admitted}
use syncwire.DirectoryManifest.{DirectoryScanLimits, at_end}
use syncwire.Tests.Peers.{plain_crypto, plain_laws, secret, proof_frame}
use syncwire.Tests.Uploads.{limits, root, request, before}

abbrev scan_limits : DirectoryScanLimits
scan_limits = record { max_file_size = 100; max_entries = 4; max_encoded_size = 1000 }

abbrev connected : Disk
connected = record before { inbox = proof_frame ∷ request ∷ before.inbox }

session_operation :
    (serve_client_session disk_link
      (plain_crypto Disk)
      disk_laws
      limits
      scan_limits
      root
      (λ w. at_end)
      secret
      connected).0.operation
    ≡ SessionOperation.upload_operation
unfolding serve_client_session dispatch authenticate_server receive_file type_eq
    decode_upload_metadata encode_upload_metadata is_safe_remote_path has_forbidden components_loop
    bytes_eq split lookup update value make_frame find is_bad_component decode_file_chunk
    encode_file_chunk valid_limits append_u32 append_u64 append_u16 get_u16 get_u64
    prepare_destination within_partial_budget read_loop read_next write_loop write_next
    check_content commit end_transfer interrupt receive_chunks reject_transfer report send_success
    settle success_result sync_directories transfer budget_loop digest_of ensure_directory
    ensure_parents hex_key make_state_root open_state_root read_partial_prefix check_budget
    check_chunk check_part_file check_range check_request metadata_status open_part_file
    open_transfer reject_before_ready start_progress trim_part_file unprepared_result acknowledge
    loop_next receive_chunk receive_loop restart round store_chunk sync_part write_all frame_error
    result_code_for_status send_result type_code encode_offset encode_transfer_ready
    encode_transfer_result result_code be_loop get_u32 get_u8 path_eq remove links
session_operation = refl

session_status :
    (serve_client_session disk_link
      (plain_crypto Disk)
      disk_laws
      limits
      scan_limits
      root
      (λ w. at_end)
      secret
      connected).0.status
    ≡ SessionStatus.success
unfolding serve_client_session dispatch authenticate_server receive_file type_eq
    decode_upload_metadata encode_upload_metadata is_safe_remote_path has_forbidden components_loop
    bytes_eq split lookup update value make_frame find is_bad_component decode_file_chunk
    encode_file_chunk valid_limits append_u32 append_u64 append_u16 get_u16 get_u64
    prepare_destination within_partial_budget read_loop read_next write_loop write_next
    check_content commit end_transfer interrupt receive_chunks reject_transfer report send_success
    settle success_result sync_directories transfer budget_loop digest_of ensure_directory
    ensure_parents hex_key make_state_root open_state_root read_partial_prefix check_budget
    check_chunk check_part_file check_range check_request metadata_status open_part_file
    open_transfer reject_before_ready start_progress trim_part_file unprepared_result acknowledge
    loop_next receive_chunk receive_loop restart round store_chunk sync_part write_all frame_error
    result_code_for_status send_result type_code encode_offset encode_transfer_ready
    encode_transfer_result result_code be_loop get_u32 get_u8 path_eq remove links
session_status = refl

serve_client_session-Committed_example :
    Admitted disk_link (plain_crypto Disk) (plain_laws Disk) secret connected
    × Served disk_link
        (plain_crypto Disk)
        (plain_laws Disk)
        disk_laws
        disk_link_leaves
        limits
        scan_limits
        root
        (λ w. at_end)
        secret
        connected
        (serve_client_session disk_link
          (plain_crypto Disk)
          disk_laws
          limits
          scan_limits
          root
          (λ w. at_end)
          secret
          connected).1
serve_client_session-Committed_example =
    serve_client_session-Committed disk_link (plain_crypto Disk) (plain_laws Disk) disk_laws
      disk_link_leaves limits scan_limits root (λ w. at_end) secret connected session_operation
      session_status
