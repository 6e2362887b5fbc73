-- ===== src/Tests/Uploads.antt =====
-- Uploads to the file system in memory.
use syncwire.Common.{
  ℕ, ◌≡◌, refl, ◌==◌, List, [], ◌∷◌, ◌++◌, true, false, none, if◌then◌else◌, ok, bytes_eq, arith,
  ◌≢◌, ◌↔◌, Ensures,
}
use syncwire.Protocol.{Frame, type_eq, upload_request, file_chunk, transfer_complete, type_code}
use syncwire.Crc32.{update, value}
use syncwire.Paths.{
  is_safe_remote_path, has_forbidden, find, is_bad_component, components_loop, partial_directory,
}
use syncwire.Paths.Components.{split}
use syncwire.TransferCodec.{
  UploadMetadata, encode_upload_metadata, decode_upload_metadata, encode_file_chunk,
  decode_file_chunk, encode_offset, encode_transfer_ready, encode_transfer_result, result_code,
}
use syncwire.TransferCodec.RoundTrip.{decode-encode_upload_metadata}
use syncwire.FileTransfer.{
  TransferLimits, FileTransferStatus, make_frame, valid_limits, frame_error, result_code_for_status,
  send_result,
}
use syncwire.FileTransfer.Files.{FilePath, OnlyFile}
use syncwire.FileTransfer.Commit.{
  receive_file, check_content, commit, end_transfer, interrupt, receive_chunks, reject_transfer,
  report, send_success, settle, success_result, sync_directories, transfer,
}
use syncwire.FileTransfer.Commit.Delivered.{IsDelivered}
use syncwire.FileTransfer.Commit.Whole.{receive_file-IsDelivered}
use syncwire.Tests.Disk.{
  Disk, lookup, disk, view, disk_laws, disk_link, disk_link_leaves, path_eq, remove, links,
  Descriptor,
}
use syncwire.Wire.{append_u32, append_u64, append_u16, get_u16, get_u64, be_loop, get_u32, get_u8}
use syncwire.FileTransfer.Destination.{
  prepare_destination, within_partial_budget, budget_loop, digest_of, ensure_directory,
  ensure_parents, hex_key, make_state_root, open_state_root, parent_path,
}
use syncwire.FileTransfer.Blocks.{read_loop, read_next, write_loop, write_next}
use syncwire.FileTransfer.Reading.{read_partial_prefix}
use syncwire.FileTransfer.Receive.{
  check_budget, check_chunk, check_part_file, check_range, check_request, metadata_status,
  open_part_file, open_transfer, reject_before_ready, start_progress, trim_part_file,
  unprepared_result, OpenTransfer,
}
use syncwire.FileTransfer.Store.{
  acknowledge, loop_next, receive_chunk, receive_loop, restart, round, store_chunk, sync_part,
}
use syncwire.FileTransfer.Writing.{write_all, Wrote, write_all-appends}
use syncwire.FileTransfer.Termination.{receive_fuel, receive_loop-ne-none}
use syncwire.FileTransfer.Destination.Budget.{Fits, others, within_partial_budget-Fits}

abbrev pub limits : TransferLimits
limits = record {
  max_file_size = 100;
  chunk_size = 10;
  max_partial_files = 4;
  max_partial_bytes = 50;
}

abbrev pub root : FilePath
root = (b'r' ∷ []) ∷ []

abbrev fresh_bytes : List ℕ
fresh_bytes = 7 ∷ 9 ∷ []

abbrev metadata : UploadMetadata
metadata = record { filename = b'a' ∷ []; file_size = 2; checksum = 2000960668 }

abbrev pub request : Frame
request = make_frame upload_request 5 0 (encode_upload_metadata metadata)

-- The destination has an older file under the name that is uploaded.
abbrev pub before : Disk
before = record {
  names = ((b'r' ∷ []) ∷ (b'a' ∷ []) ∷ [], 0) ∷ [];
  contents = λ g. if g == 0 then 1 ∷ [] else [];
  positions = λ g. 0;
  fresh = 1;
  inbox =
      make_frame file_chunk 5 5 (encode_file_chunk 0 fresh_bytes)
      ∷ make_frame transfer_complete 5 5 []
      ∷ [];
  outbox = [];
}

decoded : decode_upload_metadata request.payload ≡ ok metadata
unfolding make_frame
decoded = decode-encode_upload_metadata metadata path_safe (omega arith) (omega arith)
  where
    path_safe : is_safe_remote_path metadata.filename ≡ true
    path_safe =
        unfold is_safe_remote_path has_forbidden find is_bad_component components_loop bytes_eq in
        refl

upload_succeeds :
    (receive_file disk_link disk_laws limits root request before).0.status
    ≡ FileTransferStatus.success
unfolding receive_file type_eq decode_upload_metadata encode_upload_metadata is_safe_remote_path
    has_forbidden components_loop bytes_eq split lookup update value make_frame find
    is_bad_component decode_file_chunk encode_file_chunk valid_limits append_u32 append_u64
    append_u16 get_u16 get_u64 prepare_destination within_partial_budget read_loop read_next
    write_loop write_next check_content commit end_transfer interrupt receive_chunks reject_transfer
    report send_success settle success_result sync_directories transfer budget_loop digest_of
    ensure_directory ensure_parents hex_key make_state_root open_state_root read_partial_prefix
    check_budget check_chunk check_part_file check_range check_request metadata_status
    open_part_file open_transfer reject_before_ready start_progress trim_part_file unprepared_result
    acknowledge loop_next receive_chunk receive_loop restart round store_chunk sync_part write_all
    frame_error result_code_for_status send_result type_code encode_offset encode_transfer_ready
    encode_transfer_result result_code be_loop get_u32 get_u8 path_eq remove links
upload_succeeds = refl

receive_file-IsDelivered_example :
    IsDelivered view
      (root ++ split metadata.filename)
      metadata
      before
      (receive_file disk_link disk_laws limits root request before)
receive_file-IsDelivered_example =
    receive_file-IsDelivered disk_link disk_laws disk_link_leaves limits root request metadata
      decoded before

abbrev some_transfer : OpenTransfer Descriptor
some_transfer = record {
  metadata = metadata;
  prepared = record {
    final_path = (b'r' ∷ []) ∷ (b'a' ∷ []) ∷ [];
    part_path = (b'r' ∷ []) ∷ partial_directory ∷ (b'k' ∷ []) ∷ [];
    part_name = b'k' ∷ [];
    directory = record { file = 0; path = (b'r' ∷ []) ∷ partial_directory ∷ [] };
  };
  part_file = record { file = 0; path = [] };
  progress = record { offset = 1; checksum = 0; resumed_from = 1; first_chunk = true };
}

receive_loop-ne-none_example :
    receive_loop disk_link disk_laws limits 5 some_transfer
      (receive_fuel disk_link disk_laws limits 5 some_transfer)
      some_transfer.progress
      before
    ≢ none
receive_loop-ne-none_example =
    receive_loop-ne-none disk_link disk_laws limits 5 some_transfer some_transfer.progress before

within_partial_budget-Fits_example :
    (within_partial_budget disk some_transfer.prepared metadata limits before ≡ true) ↔ (
      ((disk.list_directory (parent_path some_transfer.prepared.part_path) before).1 ≡ false)
      × Fits limits
          (others some_transfer.prepared.part_name
            (disk.list_directory (parent_path some_transfer.prepared.part_path) before).0)
          2
          1)
within_partial_budget-Fits_example =
    within_partial_budget-Fits disk some_transfer.prepared metadata limits before

abbrev at_the_end : Disk
at_the_end = record before { positions = λ g. 1 }

write_all-appends_example :
    Ensures
      (λ u w'.
        OnlyFile view some_transfer.part_file at_the_end w'
        × Wrote disk_laws some_transfer.part_file fresh_bytes at_the_end w')
      (λ e w'.
        OnlyFile view some_transfer.part_file at_the_end w'
        × (e.status ≡ FileTransferStatus.file_write_error))
      (write_all disk_laws some_transfer.part_file fresh_bytes at_the_end)
write_all-appends_example =
    write_all-appends disk_laws some_transfer.part_file fresh_bytes at_the_end refl
