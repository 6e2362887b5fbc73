-- ===== src/Tests/Scans.antt =====
-- A scan of two files, one in a directory, beside a symbolic link and the partial files.
use syncwire.Common.{
  ℕ, ◌≡◌, refl, ap, length, List, [], ◌∷◌, map, All, none, ok, arith, bytes_eq, bytes_lt,
}
use syncwire.Crc32.{update, value, update_all}
use syncwire.Paths.{
  partial_directory, is_safe_remote_path, has_forbidden, find, is_bad_component, components_loop,
}
use syncwire.SyncCodec.{encode_manifest, decode_manifest}
use syncwire.Plan.Differences.{IsSorted}
use syncwire.FileTransfer.Files.{FileStatus}
use syncwire.DirectoryManifest.{
  DirectoryScanLimits, Visited, Forest, at_end, visit, scan_directory, scan_root, scan_entries,
  add_file, checksum_file, check_count, check_path, check_size, insert_record, sort_by_path,
}
use syncwire.DirectoryManifest.Sorted.{IsDistinct}
use syncwire.DirectoryManifest.Added.{regular_files, record_of}
use syncwire.DirectoryManifest.Scanned.{
  IsScanned, IsWord, scan_directory-IsScanned, scan_directory-decode_manifest,
}

abbrev scan_limits : DirectoryScanLimits
scan_limits = record { max_entries = 3; max_file_size = 100; max_encoded_size = 1000 }

abbrev entry : List ℕ → FileStatus → List ℕ → List (List ℕ) → Visited
entry name status path blocks = record {
  filename = name;
  status = status;
  relative = ok path;
  file_size = ok 2;
  blocks = ok blocks;
}

abbrev tree : Forest
tree =
    visit (entry (b'b' ∷ []) FileStatus.directory (b'b' ∷ []) [])
      (visit
        (entry (b'c' ∷ []) FileStatus.regular (b'b' ∷ b'/' ∷ b'c' ∷ []) ((7 ∷ []) ∷ (9 ∷ []) ∷ []))
        at_end at_end)
      (visit (entry partial_directory FileStatus.directory partial_directory [])
        (visit (entry (b'p' ∷ []) FileStatus.regular (b'p' ∷ []) []) at_end at_end)
        (visit (entry (b'l' ∷ []) FileStatus.symlink (b'l' ∷ []) []) at_end (
          visit (entry (b'a' ∷ []) FileStatus.regular (b'a' ∷ []) ((7 ∷ 9 ∷ []) ∷ [])) at_end
            at_end)))

scan_succeeds : (scan_directory scan_limits FileStatus.directory tree).error ≡ none
unfolding scan_directory scan_root scan_entries add_file checksum_file check_count check_path
    check_size bytes_eq is_safe_remote_path has_forbidden find is_bad_component components_loop
scan_succeeds = refl

distinct : IsDistinct (map record_of (regular_files tree))
unfolding regular_files bytes_eq
distinct = ((λ h. absurd (omega (arith, ap length h)), tt), (tt, tt))

scan_directory-IsScanned_example :
    (FileStatus.directory ≡ FileStatus.directory)
    × IsScanned scan_limits tree (scan_directory scan_limits FileStatus.directory tree).files
    × IsSorted (scan_directory scan_limits FileStatus.directory tree).files
scan_directory-IsScanned_example =
    scan_directory-IsScanned scan_limits FileStatus.directory tree scan_succeeds distinct

words : All IsWord (scan_directory scan_limits FileStatus.directory tree).files
unfolding scan_directory scan_root scan_entries add_file checksum_file check_count check_path
    check_size bytes_eq bytes_lt is_safe_remote_path has_forbidden find is_bad_component
    components_loop sort_by_path insert_record update value update_all
words = (omega arith, (omega arith, tt))

scan_directory-decode_manifest_example :
    decode_manifest (encode_manifest (scan_directory scan_limits FileStatus.directory tree).files) 3
    ≡ ok (scan_directory scan_limits FileStatus.directory tree).files
scan_directory-decode_manifest_example =
    scan_directory-decode_manifest scan_limits FileStatus.directory tree scan_succeeds distinct
      words (omega arith) (omega arith)
