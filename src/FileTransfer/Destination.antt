-- ===== src/FileTransfer/Destination.antt =====
-- prepare_destination and within_partial_budget of src/common/file_transfer.cpp.
pub mod Budget
pub mod Prepared
use syncwire.Common.{
  ℕ, zero, suc, ◌+◌, ◌-◌, ◌/◌, ◌%◌, ◌≤◌, ◌≡◌, refl, ap, sym, ◌∙◌, Bool, true, false, List, [], ◌∷◌,
  ◌++◌, Option, none, some, not, ◌&&◌, ltb, leb, ◌==◌, if◌then◌else◌, length, Outcome, ok, err,
  then_do, attempt, map_err, Ensures, Ensures-then_do, Ensures-map_err, attempt-Ensures, bytes_eq,
  arith, Option-cases, Bool-cases, inl, inr, Outcome-cases,
}
use mathlib.Core.List.{append_assoc, append-nil}
use syncwire.Paths.{partial_directory}
use syncwire.Paths.Components.{split}
use syncwire.TransferCodec.{UploadMetadata, encode_upload_metadata}
use syncwire.FileTransfer.{TransferLimits}
use syncwire.FileTransfer.Files.{
  FilePath, FileStatus, missing, directory, symlink, regular, other_kind, status_error, Entry,
  FileSystem, FileView, FileLaws, Same,
}
use syncwire.FileTransfer.Kept.{Same-refl, Same-trans}
use syncwire.FileTransfer.Blocks.{eio}

abbrev pub eexist : ℕ
eexist = 17

-- Why a PreparedDestination is not ok: invalid_path is set, or system_error is.
pub data Unprepared : Type 0 where
  path_invalid : Unprepared
  system_failed : ℕ → Unprepared

pub record PreparedDestination (Fd : Type 0) : Type 0 where
  pub final_path : FilePath
  pub part_path : FilePath
  pub part_name : List ℕ
  pub directory : Fd

abbrev pub child : FilePath → List ℕ → FilePath
child path name = path ++ (name ∷ [])

abbrev pub parent_path : FilePath → FilePath
parent_path [] = []
parent_path (c ∷ []) = []
parent_path (c ∷ d ∷ cs) = c ∷ parent_path (d ∷ cs)

abbrev pub hex_digit : ℕ → ℕ
hex_digit n = if ltb n 10 then b'0' + n else b'a' + (n - 10)

unfoldable pub hex_key : List ℕ → List ℕ
hex_key [] = []
hex_key (byte ∷ bytes) = hex_digit (byte / 16) ∷ hex_digit (byte % 16) ∷ hex_key bytes

-- key + ".part".
abbrev pub part_name_of : List ℕ → List ℕ
part_name_of digest = hex_key digest ++ (b'.' ∷ b'p' ∷ b'a' ∷ b'r' ∷ b't' ∷ [])

abbrev pub is_regular_file : FileStatus → Bool
is_regular_file regular = true
is_regular_file _ = false

-- The loop over the entries of the partial directory, but for the upload's own one.
unfoldable pub budget_loop : TransferLimits → List ℕ → List Entry → ℕ → ℕ → Bool
budget_loop limits own [] bytes count = leb count limits.max_partial_files
budget_loop limits own (entry ∷ entries) bytes count = elim (bytes_eq entry.name own) [
  | true ↦ budget_loop limits own entries bytes count
  | false ↦ elim (is_regular_file entry.status) [
    | false ↦ false
    | true ↦ elim entry.size [
      | none ↦ false
      | some size ↦
          if ltb (limits.max_partial_bytes - bytes) size
          then false
          else if ltb limits.max_partial_files (suc count)
          then false
          else budget_loop limits own entries (bytes + size) (suc count)
    ]
  ]
]

module _ {World : Type 0} (fs : FileSystem World) where
  -- What the code does at the root and at each parent: a directory may stand there, and nothing else
  -- may; where there is nothing, `create` makes one.
  unfoldable pub ensure_directory :
      (FilePath → World → Option ℕ × World)
      → FilePath
      → World
      → Outcome Unprepared (Unit {0}) × World
  ensure_directory create path w = elim (fs.symlink_status path w) [
    | missing ↦ map_err system_failed (attempt (create path w))
    | directory ↦ (ok tt, w)
    | symlink ↦ (err path_invalid, w)
    | regular ↦ (err path_invalid, w)
    | other_kind ↦ (err path_invalid, w)
    | status_error e ↦ (err (system_failed e), w)
  ]

  -- The loop over relative.parent_path(), from `parent` on, and the final path that it leads to.
  unfoldable pub ensure_parents :
      FilePath → List (List ℕ) → World → Outcome Unprepared FilePath × World
  unfolding ensure_directory
  ensure_parents parent [] w = (ok parent, w)
  ensure_parents parent (name ∷ []) w = (ok (child parent name), w)
  ensure_parents parent (component ∷ next ∷ rest) w =
      then_do (ensure_directory fs.create_directory (child parent component) w)
        (λ u w1. ensure_parents (child parent component) (next ∷ rest) w1)

  -- EVP_Digest, with the check of its size.
  unfoldable pub digest_of : UploadMetadata → World → Outcome Unprepared (List ℕ)
  unfolding encode_upload_metadata
  digest_of metadata w = elim (fs.digest (encode_upload_metadata metadata) w) [
    | none ↦ err (system_failed eio)
    | some digest ↦ if length digest == 32 then ok digest else err (system_failed eio)
  ]

  unfoldable pub make_state_root : FilePath → World → Outcome Unprepared (Unit {0}) × World
  make_state_root state_root w =
      let made = fs.mkdir state_root w in
      elim made.0 [
        | none ↦ (ok tt, made.1)
        | some e ↦ if e == eexist then (ok tt, made.1) else (err (system_failed e), made.1)
      ]

  unfoldable pub open_state_root :
      FilePath → FilePath → List ℕ → World → Outcome Unprepared (PreparedDestination fs.Fd) × World
  open_state_root state_root final digest w =
      then_do (map_err system_failed (fs.open_directory state_root w)) (λ fd w1. (
        ok (record {
          final_path = final;
          part_path = child state_root (part_name_of digest);
          part_name = part_name_of digest;
          directory = fd;
        }),
        w1,
      ))

  unfoldable pub prepare_destination :
      FilePath → UploadMetadata → World → Outcome Unprepared (PreparedDestination fs.Fd) × World
  unfolding ensure_directory ensure_parents digest_of make_state_root open_state_root
  prepare_destination root metadata w =
      then_do (ensure_directory fs.create_directories root w) (λ u w1.
        then_do (ensure_parents root (split metadata.filename) w1) (λ final w2.
          then_do (digest_of metadata w2, w2)
            (λ digest w3.
              then_do (make_state_root (child root partial_directory) w3)
                (λ u' w4. open_state_root (child root partial_directory) final digest w4))))

  unfoldable pub within_partial_budget :
      PreparedDestination fs.Fd → UploadMetadata → TransferLimits → World → Bool
  unfolding budget_loop
  within_partial_budget prepared metadata limits w =
      let listed = fs.list_directory (parent_path prepared.part_path) w in
      if ltb limits.max_partial_bytes metadata.file_size
      then false
      else budget_loop limits prepared.part_name listed.0 metadata.file_size 1 && not listed.1
