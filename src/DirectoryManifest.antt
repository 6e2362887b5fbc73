-- ===== src/DirectoryManifest.antt =====
-- src/common/directory_manifest.cpp: scan_directory, over what its iterator meets.
pub mod Sorted
pub mod Added
pub mod Scanned
use syncwire.Common.{
  ℕ, suc, ◌+◌, ◌-◌, Bool, true, false, not, ◌||◌, List, [], ◌∷◌, ◌++◌, Option, none, some, ltb, leb,
  if◌then◌else◌, length, Outcome, ok, err, ◌>>=◌, bytes_eq, bytes_lt,
}
use syncwire.Crc32.{initial_state, update_all, value}
use syncwire.Paths.{is_safe_remote_path, partial_directory}
use syncwire.SyncCodec.{FileRecord}
use syncwire.DirectorySync.{
  DirectoryScanError, root_not_directory, scan_io_error, unsafe_relative_path, too_many_files,
  file_too_large, manifest_too_large,
}
use syncwire.FileTransfer.Files.{
  FileStatus, missing, directory, symlink, regular, other_kind, status_error,
}

pub record DirectoryScanLimits : Type 0 where
  pub max_entries : ℕ
  pub max_file_size : ℕ
  pub max_encoded_size : ℕ

-- One entry, and what the calls about it answer: its name, symlink_status, the relative path and
-- file_size (or an error number), and the blocks that reading it gives (or errno).
pub record Visited : Type 0 where
  pub filename : List ℕ
  pub status : FileStatus
  pub relative : Outcome ℕ (List ℕ)
  pub file_size : Outcome ℕ ℕ
  pub blocks : Outcome ℕ (List (List ℕ))

-- What the iterator meets from some place on: the end, an error, or an entry with what is under it and
-- what comes after it.
pub data Forest : Type 0 where
  at_end : Forest
  broken : ℕ → Forest
  visit : Visited → Forest → Forest → Forest

pub record DirectoryScanResult : Type 0 where
  pub files : List FileRecord
  pub error : Option DirectoryScanError
  pub skipped_symlinks : ℕ
  pub system_error : ℕ

unfoldable pub failure : DirectoryScanError → ℕ → DirectoryScanResult
failure error number = record {
  files = [];
  error = some error;
  skipped_symlinks = 0;
  system_error = number;
}

-- The variables of the loop.
pub record Scan : Type 0 where
  pub files : List FileRecord
  pub skipped_symlinks : ℕ
  pub encoded_size : ℕ

abbrev pub enoent : ℕ
enoent = 2

-- sizeof(std::uint16_t) + sizeof(std::uint64_t) + sizeof(std::uint32_t) + relative_path.size().
abbrev pub record_size : List ℕ → ℕ
record_size relative_path = 2 + 8 + 4 + length relative_path

-- An error number makes the scan fail with FileIoError.
abbrev pub or_fail {ℓ} : {A : Type ℓ} → Outcome ℕ A → Outcome (DirectoryScanError × ℕ) A
or_fail (ok a) = ok a
or_fail (err e) = err (scan_io_error, e)

unfoldable pub checksum_file : Visited → Outcome (DirectoryScanError × ℕ) ℕ
checksum_file entry =
    or_fail entry.blocks >>= (λ blocks. ok (value (update_all initial_state blocks)))

unfoldable pub check_count :
    DirectoryScanLimits → Scan → Outcome (DirectoryScanError × ℕ) (Unit {0})
check_count limits scan =
    if leb limits.max_entries (length scan.files) then err (too_many_files, 0) else ok tt

unfoldable pub check_path : List ℕ → Outcome (DirectoryScanError × ℕ) (Unit {0})
check_path path = if not (is_safe_remote_path path) then err (unsafe_relative_path, 0) else ok tt

unfoldable pub check_size :
    DirectoryScanLimits → Scan → List ℕ → ℕ → Outcome (DirectoryScanError × ℕ) (Unit {0})
check_size limits scan path size =
    if ltb limits.max_file_size size
    then err (file_too_large, 0)
    else if ltb limits.max_encoded_size (record_size path)
        || ltb (limits.max_encoded_size - record_size path) scan.encoded_size
    then err (manifest_too_large, 0)
    else ok tt

-- What the loop does with a regular file.
unfoldable pub add_file :
    DirectoryScanLimits → Visited → Scan → Outcome (DirectoryScanError × ℕ) Scan
unfolding checksum_file check_count check_path check_size
add_file limits entry scan = check_count limits scan >>= (λ u. or_fail entry.relative >>= (λ path.
    check_path path >>= (λ u'. or_fail entry.file_size >>= (λ size.
      check_size limits scan path size >>= (λ u''. checksum_file entry >>= (λ checksum.
        ok (record scan {
          files = scan.files ++ (record { path = path; size = size; checksum = checksum } ∷ []);
          encoded_size = scan.encoded_size + record_size path;
        })))))))

abbrev pub skip_symlink : Scan → Scan
skip_symlink scan = record scan { skipped_symlinks = suc scan.skipped_symlinks }

-- The loop over the iterator. The directory of the partial files is passed by, with what is under it.
unfoldable pub scan_entries :
    DirectoryScanLimits → Forest → Scan → Outcome (DirectoryScanError × ℕ) Scan
unfolding add_file
scan_entries limits at_end scan = ok scan
scan_entries limits (broken e) scan = err (scan_io_error, e)
scan_entries limits (visit entry under after) scan =
    elim (bytes_eq entry.filename partial_directory) [
      | true ↦ scan_entries limits after scan
      | false ↦ elim entry.status [
        | missing ↦ err (scan_io_error, enoent)
        | status_error e ↦ err (scan_io_error, e)
        | symlink ↦ scan_entries limits after (skip_symlink scan)
        | regular ↦ add_file limits entry scan >>= (λ scan'. scan_entries limits after scan')
        | directory ↦ scan_entries limits under scan >>= (λ scan'. scan_entries limits after scan')
        | other_kind ↦ scan_entries limits after scan
      ]
    ]

-- std::ranges::sort by the path.
unfoldable pub insert_record : FileRecord → List FileRecord → List FileRecord
insert_record file [] = file ∷ []
insert_record file (other ∷ files) =
    let rest = insert_record file files in
    if bytes_lt file.path other.path then file ∷ other ∷ files else other ∷ rest

unfoldable pub sort_by_path : List FileRecord → List FileRecord
unfolding insert_record
sort_by_path [] = []
sort_by_path (file ∷ files) = insert_record file (sort_by_path files)

unfoldable pub scan_root : DirectoryScanLimits → Forest → DirectoryScanResult
unfolding scan_entries sort_by_path failure
scan_root limits forest =
    elim (scan_entries limits forest
      (record { files = []; skipped_symlinks = 0; encoded_size = 4 })) [
        | err (error, number) ↦ failure error number
        | ok scan ↦ record {
          files = sort_by_path scan.files;
          error = none;
          skipped_symlinks = scan.skipped_symlinks;
          system_error = 0;
        }
      ]

-- scan_directory, with what symlink_status says of the root and what the iterator meets under it.
unfoldable pub scan_directory : DirectoryScanLimits → FileStatus → Forest → DirectoryScanResult
unfolding failure scan_root
scan_directory limits missing forest = failure root_not_directory 0
scan_directory limits (status_error e) forest = failure scan_io_error e
scan_directory limits symlink forest = failure root_not_directory 0
scan_directory limits regular forest = failure root_not_directory 0
scan_directory limits other_kind forest = failure root_not_directory 0
scan_directory limits directory forest = scan_root limits forest
