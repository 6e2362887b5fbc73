-- ===== src/DirectoryManifest/Added.antt =====
-- src/common/directory_manifest.cpp: what the loop of a scan does with one file.
use syncwire.Common.{
  ℕ, ◌+◌, ◌≤◌, ◌<◌, ◌≡◌, ◌≢◌, refl, ap, sym, subst, ◌∙◌, true, List, [], ◌∷◌, ◌++◌, if◌then◌else◌,
  length, length-append, All, All-append, Outcome, ok, err, >>=-ok, bytes_eq, arith,
}
use syncwire.Crc32.{update_all-crc32, crc32, file_of}
use syncwire.Paths.{is_safe_remote_path, partial_directory}
use syncwire.SyncCodec.{FileRecord}
use syncwire.FileTransfer.Files.{FileStatus, directory, regular}
use syncwire.DirectorySync.{DirectoryScanError}
use syncwire.DirectoryManifest.{
  DirectoryScanLimits, Visited, Forest, at_end, broken, visit, Scan, record_size, or_fail,
  checksum_file, check_count, check_path, check_size, add_file,
}

abbrev pub get_ok {ℓ} : {A : Type ℓ} → A → Outcome ℕ A → A
get_ok a (ok b) = b
get_ok a (err e) = a

-- The record of a file: its path, its size, and the CRC-32 of its bytes.
abbrev pub record_of : Visited → FileRecord
record_of entry = record {
  path = get_ok [] entry.relative;
  size = get_ok 0 entry.file_size;
  checksum = crc32 (file_of (get_ok [] entry.blocks));
}

abbrev pub if_regular : FileStatus → Visited → List Visited → List Visited → List Visited
if_regular regular entry under after = entry ∷ after
if_regular directory entry under after = under ++ after
if_regular _ entry under after = after

-- The regular files, but for those under a directory of partial files, in the iterator's order.
unfoldable pub regular_files : Forest → List Visited
regular_files at_end = []
regular_files (broken e) = []
regular_files (visit entry under after) =
    let below = regular_files under in
    let behind = regular_files after in
    if bytes_eq entry.filename partial_directory
    then behind
    else if_regular entry.status entry below behind

-- A record within the limits of a scan.
abbrev pub IsScannable : DirectoryScanLimits → FileRecord → Type 0
IsScannable limits file =
    (is_safe_remote_path file.path ≡ true) × (file.size ≤ limits.max_file_size)

-- The bytes of the records in a manifest.
abbrev pub wire_size : List FileRecord → ℕ
wire_size [] = 0
wire_size (file ∷ files) = record_size file.path + wire_size files

wire_size-append : (xs ys : List FileRecord) → wire_size (xs ++ ys) ≡ wire_size xs + wire_size ys
wire_size-append [] ys = omega arith
wire_size-append (x ∷ xs) ys = omega (arith, wire_size-append xs ys)

-- What the loop keeps: its files are within the limits, and encoded_size is that of their manifest.
pub record IsScan (limits : DirectoryScanLimits) (scan : Scan) : Type 0 where
  pub fine : All (IsScannable limits) scan.files
  pub few : length scan.files ≤ limits.max_entries
  pub measured : scan.encoded_size ≡ 4 + wire_size scan.files
  pub small : scan.files ≢ [] → scan.encoded_size ≤ limits.max_encoded_size

-- One file is listed.
abbrev pub Adds : DirectoryScanLimits → Visited → Scan → Scan → Type 0
Adds limits entry scan scan' =
    (scan'.files ≡ scan.files ++ (record_of entry ∷ []))
    × (length scan.files < limits.max_entries)
    × IsScannable limits (record_of entry)
    × (scan'.encoded_size ≡ scan.encoded_size + record_size (record_of entry).path)
    × (scan'.encoded_size ≤ limits.max_encoded_size)

or_fail-ok : {A : Type 0} (o : Outcome ℕ A) (d a : A) → or_fail o ≡ ok a → get_ok d o ≡ a
or_fail-ok (ok b) d a e = cc e
or_fail-ok (err n) d a e = cc e

checksum_file-crc32 :
    (entry : Visited) (c : ℕ)
    → checksum_file entry ≡ ok c
    → crc32 (file_of (get_ok [] entry.blocks)) ≡ c
unfolding checksum_file
checksum_file-crc32 entry c e =
    let (blocks, there, sum) = >>=-ok (or_fail entry.blocks) _ c e in
    ap (λ (b : List (List ℕ)). crc32 (file_of b)) (or_fail-ok entry.blocks [] blocks there)
    ∙ sym (update_all-crc32 blocks)
    ∙ cc sum

check_count-ok :
    (limits : DirectoryScanLimits) (scan : Scan) (u : Unit {0})
    → check_count limits scan ≡ ok u
    → length scan.files < limits.max_entries
unfolding check_count
check_count-ok limits scan u e = ground arith

check_path-ok :
    (path : List ℕ) (u : Unit {0}) → check_path path ≡ ok u → is_safe_remote_path path ≡ true
unfolding check_path
check_path-ok path u e = ground arith

check_size-ok :
    (limits : DirectoryScanLimits) (scan : Scan) (path : List ℕ) (size : ℕ) (u : Unit {0})
    → check_size limits scan path size ≡ ok u
    → (size ≤ limits.max_file_size)
      × (scan.encoded_size + record_size path ≤ limits.max_encoded_size)
unfolding check_size
check_size-ok limits scan path size u e = ground arith

abbrev added : Scan → FileRecord → Scan
added scan file = record scan {
  files = scan.files ++ (file ∷ []);
  encoded_size = scan.encoded_size + record_size file.path;
}

Adds-added :
    (limits : DirectoryScanLimits) (entry : Visited) (scan scan' : Scan) (file : FileRecord)
    → record_of entry ≡ file
    → length scan.files < limits.max_entries
    → is_safe_remote_path file.path ≡ true
    → (file.size ≤ limits.max_file_size)
      × (scan.encoded_size + record_size file.path ≤ limits.max_encoded_size)
    → added scan file ≡ scan'
    → Adds limits entry scan scan'
Adds-added limits entry scan scan' file same few safe (small, fits) e =
    subst (λ (x : Scan). Adds limits entry scan x) e
      (subst
        (λ (f : FileRecord).
          (scan.files ++ (file ∷ []) ≡ scan.files ++ (f ∷ []))
          × (length scan.files < limits.max_entries)
          × IsScannable limits f
          × (scan.encoded_size + record_size file.path ≡ scan.encoded_size + record_size f.path)
          × (scan.encoded_size + record_size file.path ≤ limits.max_encoded_size))
        (sym same) (refl, few, (safe, small), refl, fits))

record_of-same :
    (entry : Visited) (path : List ℕ) (size checksum : ℕ)
    → get_ok [] entry.relative ≡ path
    → get_ok 0 entry.file_size ≡ size
    → crc32 (file_of (get_ok [] entry.blocks)) ≡ checksum
    → record_of entry ≡ record { path = path; size = size; checksum = checksum }
record_of-same entry path size checksum a b c i = record { path = a i; size = b i; checksum = c i }

pub scan_of : (a b : Scan) → ◌≡◌ {A = Outcome (DirectoryScanError × ℕ) Scan} (ok a) (ok b) → a ≡ b
scan_of a b e = cc e

pub add_file-Adds :
    (limits : DirectoryScanLimits) (entry : Visited) (scan scan' : Scan)
    → add_file limits entry scan ≡ ok scan'
    → Adds limits entry scan scan'
unfolding add_file
add_file-Adds limits entry scan scan' e =
    let (u, counted, e1) = >>=-ok (check_count limits scan) _ scan' e in
    let (path, named, e2) = >>=-ok (or_fail entry.relative) _ scan' e1 in
    let (u', safe, e3) = >>=-ok (check_path path) _ scan' e2 in
    let (size, sized, e4) = >>=-ok (or_fail entry.file_size) _ scan' e3 in
    let (u'', fits, e5) = >>=-ok (check_size limits scan path size) _ scan' e4 in
    let (checksum, summed, e6) = >>=-ok (checksum_file entry) _ scan' e5 in
    Adds-added limits entry scan scan' (record { path = path; size = size; checksum = checksum })
      (record_of-same entry path size checksum (or_fail-ok entry.relative [] path named)
        (or_fail-ok entry.file_size 0 size sized) (checksum_file-crc32 entry checksum summed))
      (check_count-ok limits scan u counted) (check_path-ok path u' safe)
      (check_size-ok limits scan path size u'' fits) (scan_of _ _ e6)

pub Adds-IsScan :
    (limits : DirectoryScanLimits) (entry : Visited) (scan scan' : Scan)
    → IsScan limits scan
    → Adds limits entry scan scan'
    → IsScan limits scan'
Adds-IsScan limits entry scan scan' h (listed, few, fine, measured, small) = record {
  fine =
      subst (All (IsScannable limits)) (sym listed)
        (All-append (IsScannable limits) scan.files (record_of entry ∷ []) h.fine (fine, tt));
  few = omega (arith, ap length listed, length-append scan.files (record_of entry ∷ []));
  measured = omega (
    arith,
    h.measured,
    measured,
    ap wire_size listed,
    wire_size-append scan.files (record_of entry ∷ []),
  );
  small = λ some_file. small;
}
