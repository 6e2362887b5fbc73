-- ===== src/DirectoryManifest/Scanned.antt =====
-- src/common/directory_manifest.cpp: what a scan lists, against the files that there are.
use syncwire.Common.{
  ◌⊎◌, ℕ, suc, ◌+◌, ◌≤◌, ◌<◌, ◌≡◌, ◌≢◌, refl, ap, sym, subst, ◌∙◌, false, List, [], ◌∷◌, ◌++◌, map,
  none, length, All, ok, >>=-ok, Outcome-cases, bytes_eq, arith, Bool-cases, inl, inr, ◌^◌, ◌-◌,
}
use mathlib.Core.List.{Perm, append_assoc, append-nil}
use syncwire.Paths.{partial_directory}
use syncwire.SyncCodec.{FileRecord, encode_manifest, decode_manifest, strictly_after}
use syncwire.Plan.Differences.{IsSorted, Behind}
use syncwire.FileTransfer.Files.{
  FileStatus, missing, directory, symlink, regular, other_kind, status_error,
}
use syncwire.DirectoryManifest.{
  DirectoryScanLimits, Visited, Forest, at_end, broken, visit, Scan, failure, record_size, add_file,
  skip_symlink, scan_entries, insert_record, sort_by_path, scan_root, scan_directory,
}
use syncwire.DirectoryManifest.Sorted.{
  IsDistinct, All-sort_by_path, sort_by_path-perm, sort_by_path-IsSorted,
}
use syncwire.DirectoryManifest.Added.{
  record_of, regular_files, IsScannable, wire_size, IsScan, scan_of, add_file-Adds, Adds-IsScan,
}
use syncwire.SyncCodec.RoundTrip.{IsRecord, IsOrdered, decode-encode_manifest}

map-append :
    (xs ys : List Visited) → map record_of (xs ++ ys) ≡ map record_of xs ++ map record_of ys
map-append [] ys = refl
map-append (x ∷ xs) ys = ap (◌∷◌ (record_of x)) (map-append xs ys)

-- What the loop has done from `scan` to `scan'`.
abbrev Lists : DirectoryScanLimits → List Visited → Scan → Scan → Type 0
Lists limits entries scan scan' =
    (scan'.files ≡ scan.files ++ map record_of entries) × IsScan limits scan'

Lists-trans :
    (limits : DirectoryScanLimits) (xs ys : List Visited) (a b c : Scan)
    → Lists limits xs a b
    → Lists limits ys b c
    → Lists limits (xs ++ ys) a c
Lists-trans limits xs ys a b c (ab, h) (bc, k) = (
  bc
      ∙ ap (λ (l : List FileRecord). l ++ map record_of ys) ab
      ∙ append_assoc a.files (map record_of xs) (map record_of ys)
      ∙ ap (◌++◌ a.files) (sym (map-append xs ys)),
  k,
)

skip_symlink-IsScan :
    (limits : DirectoryScanLimits) (scan : Scan)
    → IsScan limits scan
    → IsScan limits (skip_symlink scan)
skip_symlink-IsScan limits scan h = record {
  fine = h.fine;
  few = h.few;
  measured = h.measured;
  small = h.small;
}

abbrev Walks : DirectoryScanLimits → Forest → Type 0
Walks limits forest =
    (scan scan' : Scan)
    → IsScan limits scan
    → scan_entries limits forest scan ≡ ok scan'
    → Lists limits (regular_files forest) scan scan'

visit-Lists :
    (limits : DirectoryScanLimits) (entry : Visited) (under after : Forest) (scan scan' : Scan)
    (status : FileStatus)
    → Walks limits under
    → Walks limits after
    → IsScan limits scan
    → entry.status ≡ status
    → bytes_eq entry.filename partial_directory ≡ false
    → scan_entries limits (visit entry under after) scan ≡ ok scan'
    → Lists limits (regular_files (visit entry under after)) scan scan'
unfolding scan_entries regular_files
visit-Lists limits entry under after scan scan' missing below behind h s other e =
    cc (rw s at (rw (other, scan_entries) at e))
visit-Lists limits entry under after scan scan' (status_error n) below behind h s other e =
    cc (rw s at (rw (other, scan_entries) at e))
visit-Lists limits entry under after scan scan' symlink below behind h s other e =
    rw (other, regular_files, s)
      (behind (skip_symlink scan) scan' (skip_symlink-IsScan limits scan h)
        (rw s at (rw (other, scan_entries) at e)))
visit-Lists limits entry under after scan scan' other_kind below behind h s other e =
    rw (other, regular_files, s) (behind scan scan' h (rw s at (rw (other, scan_entries) at e)))
visit-Lists limits entry under after scan scan' directory below behind h s other e =
    let (middle, e1, e2) =
      >>=-ok (scan_entries limits under scan) (λ x. scan_entries limits after x) scan'
        (rw s at (rw (other, scan_entries) at e)) in
    let first = below scan middle h e1 in
    rw (other, regular_files, s)
      (Lists-trans limits (regular_files under) (regular_files after) scan middle scan' first
        (behind middle scan' first.1 e2))
visit-Lists limits entry under after scan scan' regular below behind h s other e =
    let (middle, e1, e2) =
      >>=-ok (add_file limits entry scan) (λ x. scan_entries limits after x) scan'
        (rw s at (rw (other, scan_entries) at e)) in
    let adds = add_file-Adds limits entry scan middle e1 in
    let fine = Adds-IsScan limits entry scan middle h adds in
    rw (other, regular_files, s)
      (Lists-trans limits (entry ∷ []) (regular_files after) scan middle scan' (adds.0, fine)
        (behind middle scan' fine e2))

scan_entries-Lists : (limits : DirectoryScanLimits) (forest : Forest) → Walks limits forest
unfolding scan_entries regular_files
scan_entries-Lists limits at_end scan scan' h e =
    subst (λ (x : Scan). Lists limits [] scan x) (scan_of scan scan' e)
      (sym (append-nil scan.files), h)
scan_entries-Lists limits (broken n) scan scan' h e = cc e
scan_entries-Lists limits (visit entry under after) scan scan' h e =
    elim (Bool-cases (bytes_eq entry.filename partial_directory)) [
      | inl partial ↦
          rw (partial, regular_files)
            (scan_entries-Lists limits after scan scan' h (rw (partial, scan_entries) at e))
      | inr other ↦
          visit-Lists limits entry under after scan scan' entry.status
            (scan_entries-Lists limits under) (scan_entries-Lists limits after) h refl other e
    ]

length-insert_record :
    (file : FileRecord) (files : List FileRecord)
    → length (insert_record file files) ≡ suc (length files)
unfolding insert_record
length-insert_record file [] = refl
length-insert_record file (other ∷ files) = ground (arith, length-insert_record file files)

length-sort_by_path : (files : List FileRecord) → length (sort_by_path files) ≡ length files
unfolding sort_by_path
length-sort_by_path [] = refl
length-sort_by_path (file ∷ files) =
    omega (arith, length-insert_record file (sort_by_path files), length-sort_by_path files)

wire_size-insert_record :
    (file : FileRecord) (files : List FileRecord)
    → wire_size (insert_record file files) ≡ record_size file.path + wire_size files
unfolding insert_record
wire_size-insert_record file [] = refl
wire_size-insert_record file (other ∷ files) = ground (arith, wire_size-insert_record file files)

wire_size-sort_by_path :
    (files : List FileRecord) → wire_size (sort_by_path files) ≡ wire_size files
unfolding sort_by_path
wire_size-sort_by_path [] = refl
wire_size-sort_by_path (file ∷ files) =
    omega (arith, wire_size-insert_record file (sort_by_path files), wire_size-sort_by_path files)

-- What a scan promises of the files under a root.
pub record IsScanned (limits : DirectoryScanLimits) (forest : Forest) (files : List FileRecord)
    : Type 0 where
  pub same_files : Perm files (map record_of (regular_files forest))
  pub fine : All (IsScannable limits) files
  pub few : length files ≤ limits.max_entries
  pub small : wire_size files ≤ limits.max_encoded_size - 4

some_or_none : (files : List FileRecord) → (wire_size files ≡ 0) ⊎ (files ≢ [])
some_or_none [] = inl refl
some_or_none (file ∷ files) = inr (λ e. cc e)

scan_root-IsScanned :
    (limits : DirectoryScanLimits) (forest : Forest)
    → (scan_root limits forest).error ≡ none
    → IsScanned limits forest (scan_root limits forest).files
unfolding scan_root failure
scan_root-IsScanned limits forest e =
    elim (Outcome-cases (
      scan_entries limits forest (record { files = []; skipped_symlinks = 0; encoded_size = 4 }))) [
        | inr ((error, number), failed) ↦ cc (rw (failed, scan_root) at e)
        | inl (scan, there) ↦
            let (listed, h) =
              scan_entries-Lists limits forest
                (record { files = []; skipped_symlinks = 0; encoded_size = 4 }) scan
                (record {
                  fine = tt;
                  few = omega arith;
                  measured = omega arith;
                  small = λ some_file. absurd (some_file refl);
                })
                there in
            rw (there, scan_root)
              (record {
                same_files =
                    subst (λ (l : List FileRecord). Perm (sort_by_path scan.files) l) listed
                      (sort_by_path-perm scan.files);
                fine = All-sort_by_path (IsScannable limits) scan.files h.fine;
                few = omega (arith, h.few, length-sort_by_path scan.files);
                small = elim (some_or_none scan.files) [
                  | inl none_ ↦ omega (arith, none_, wire_size-sort_by_path scan.files)
                  | inr some_file ↦
                      omega
                        (arith, h.small some_file, h.measured, wire_size-sort_by_path scan.files)
                ];
              })
      ]

scan_root-IsSorted :
    (limits : DirectoryScanLimits) (forest : Forest)
    → (scan_root limits forest).error ≡ none
    → IsDistinct (map record_of (regular_files forest))
    → IsSorted (scan_root limits forest).files
unfolding scan_root failure
scan_root-IsSorted limits forest e distinct =
    elim (Outcome-cases (
      scan_entries limits forest (record { files = []; skipped_symlinks = 0; encoded_size = 4 }))) [
        | inr ((error, number), failed) ↦ cc (rw (failed, scan_root) at e)
        | inl (scan, there) ↦
            let (listed, h) =
              scan_entries-Lists limits forest
                (record { files = []; skipped_symlinks = 0; encoded_size = 4 }) scan
                (record {
                  fine = tt;
                  few = omega arith;
                  measured = omega arith;
                  small = λ some_file. absurd (some_file refl);
                })
                there in
            rw (there, scan_root)
              (sort_by_path-IsSorted scan.files (subst IsDistinct (sym listed) distinct))
      ]

-- When no two of the regular files, but for those under a directory of partial files, have the same path: a scan
-- that succeeds was of a directory, and lists exactly these files, in strictly rising order of the paths, each with its path,
-- its size and the CRC-32 of its bytes. The paths are safe, the sizes and the number of the files are
-- within the limits, and the bytes of the records are at most max_encoded_size - 4.
pub scan_directory-IsScanned :
    (limits : DirectoryScanLimits) (status : FileStatus) (forest : Forest)
    → (scan_directory limits status forest).error ≡ none
    → IsDistinct (map record_of (regular_files forest))
    → (status ≡ directory)
      × IsScanned limits forest (scan_directory limits status forest).files
      × IsSorted (scan_directory limits status forest).files
unfolding scan_directory failure
scan_directory-IsScanned limits missing forest e d = cc e
scan_directory-IsScanned limits (status_error n) forest e d = cc e
scan_directory-IsScanned limits symlink forest e d = cc e
scan_directory-IsScanned limits regular forest e d = cc e
scan_directory-IsScanned limits other_kind forest e d = cc e
scan_directory-IsScanned limits directory forest e d =
    (refl, scan_root-IsScanned limits forest e, scan_root-IsSorted limits forest e d)

abbrev pub IsWord : FileRecord → Type 0
IsWord file = file.checksum < 2 ^ 32

records_fit :
    (limits : DirectoryScanLimits) (files : List FileRecord)
    → limits.max_file_size < 2 ^ 64
    → All (IsScannable limits) files
    → All IsWord files
    → All IsRecord files
records_fit limits [] large fine words = tt
records_fit limits (file ∷ files) large fine words =
    ((fine.0.0, omega (arith, fine.0.1), words.0), records_fit limits files large fine.1 words.1)

IsOrdered-of_sorted :
    (previous : List ℕ) (files : List FileRecord)
    → Behind previous files
    → IsSorted files
    → IsOrdered previous files
unfolding strictly_after
IsOrdered-of_sorted previous [] b s = tt
IsOrdered-of_sorted previous (file ∷ files) b s =
    (ground (arith, b.0), IsOrdered-of_sorted file.path files s.0 s.1)

IsOrdered-first : (files : List FileRecord) → IsSorted files → IsOrdered [] files
unfolding strictly_after
IsOrdered-first [] s = tt
IsOrdered-first (file ∷ files) s = (ground arith, IsOrdered-of_sorted file.path files s.0 s.1)

-- What a successful scan lists is what the other side decodes from its manifest, when no two paths are
-- equal, the checksums are 32-bit words, and the limits are below 2 ^ 32 entries and 2 ^ 64 bytes.
pub scan_directory-decode_manifest :
    (limits : DirectoryScanLimits) (status : FileStatus) (forest : Forest)
    → (scan_directory limits status forest).error ≡ none
    → IsDistinct (map record_of (regular_files forest))
    → All IsWord (scan_directory limits status forest).files
    → limits.max_entries < 2 ^ 32
    → limits.max_file_size < 2 ^ 64
    → decode_manifest
        (encode_manifest (scan_directory limits status forest).files)
        limits.max_entries
      ≡ ok (scan_directory limits status forest).files
scan_directory-decode_manifest limits status forest e distinct words few large =
    let (is_directory, scanned, sorted) =
      scan_directory-IsScanned limits status forest e distinct in
    let files = (scan_directory limits status forest).files in
    decode-encode_manifest files limits.max_entries scanned.few (omega (arith, scanned.few))
      (IsOrdered-first files sorted) (records_fit limits files large scanned.fine words)
