-- ===== src/SyncCodec.antt =====
-- src/common/sync_codec.cpp without build_sync_plan: the payloads of the directory synchronization
-- messages; and FileRecord of include/syncwire/common/directory_manifest.hpp.
pub mod RoundTrip
pub mod Plans
use syncwire.Common.{
  ℕ, zero, suc, ◌+◌, ◌-◌, ◌%◌, ◌^◌, ◌≤◌, ◌<◌, ◌≡◌, Bool, true, false, not, ◌&&◌, ◌||◌, List, [],
  ◌∷◌, ◌++◌, Option, none, some, ltb, ◌==◌, if◌then◌else◌, length, take, drop, Outcome, ok, err,
  ◌>>=◌, bytes_lt,
}
use syncwire.Wire.{get_u8, get_u16, get_u32, get_u64, append_u16, append_u32, append_u64}
use syncwire.Paths.{is_safe_remote_path, max_remote_path_length}

pub record FileRecord : Type 0 where
  pub path : List ℕ
  pub size : ℕ
  pub checksum : ℕ

pub data SyncCodecError : Type 0 where
  payload_too_short payload_size_mismatch too_many_entries path_too_long : SyncCodecError
  unsafe_path paths_not_strictly_sorted unknown_result_code : SyncCodecError

pub data SyncResultCode : Type 0 where
  success destination_changed : SyncResultCode

pub record SyncPlan : Type 0 where
  pub upload_paths : List (List ℕ)
  pub unchanged_count : ℕ
  pub server_only_count : ℕ

-- kManifestCountSize and kSyncPlanPrefixSize.
abbrev pub manifest_count_size : ℕ
manifest_count_size = 4

abbrev pub sync_plan_prefix_size : ℕ
sync_plan_prefix_size = 12

-- `none` is the answer false.
unfoldable pub append_path : List ℕ → List ℕ → Option (List ℕ)
append_path output path =
    if not (is_safe_remote_path path)
      || ltb max_remote_path_length (length path)
      || ltb (2 ^ 16 - 1) (length path)
    then none
    else some (append_u16 output (length path) ++ path)

-- The path at an offset, with the offset behind it.
unfoldable pub decode_path : List ℕ → ℕ → Outcome SyncCodecError (List ℕ × ℕ)
decode_path payload offset =
    let path_size = get_u16 payload offset in
    let start = offset + 2 in
    let path = take path_size (drop start payload) in
    if ltb (length payload) offset || ltb (length payload - offset) 2
    then err payload_too_short
    else if path_size == 0 || ltb max_remote_path_length path_size
    then err path_too_long
    else if ltb (length payload) start || ltb (length payload - start) path_size
    then err payload_too_short
    else if not (is_safe_remote_path path)
    then err unsafe_path
    else ok (path, start + path_size)

unfoldable pub strictly_after : List ℕ → List ℕ → Bool
strictly_after previous current = length previous == 0 || bytes_lt previous current

-- The loop of encode_manifest; the empty payload is its refusal.
unfoldable pub encode_records : List FileRecord → List ℕ → List ℕ → List ℕ
encode_records [] previous payload = payload
encode_records (file ∷ files) previous payload =
    if not (strictly_after previous file.path)
    then []
    else elim (append_path (append_u32 (append_u64 payload file.size) file.checksum) file.path) [
      | none ↦ []
      | some longer ↦ encode_records files file.path longer
    ]

unfoldable pub encode_manifest : List FileRecord → List ℕ
encode_manifest files =
    if ltb (2 ^ 32 - 1) (length files)
    then []
    else encode_records files [] (append_u32 [] (length files % 2 ^ 32))

-- The loop of decode_manifest, with `rounds` records to come, and the check behind it.
unfoldable pub decode_records :
    ℕ → List ℕ → ℕ → List ℕ → List FileRecord → Outcome SyncCodecError (List FileRecord)
decode_records zero payload offset previous files =
    if not (offset == length payload) then err payload_size_mismatch else ok files
decode_records (suc rounds) payload offset previous files =
    if ltb (length payload) offset || ltb (length payload - offset) 12
    then err payload_too_short
    else elim (decode_path payload (offset + 12)) [
      | err e ↦ err e
      | ok (path, behind) ↦
          let file : FileRecord = record {
            path = path;
            size = get_u64 payload offset;
            checksum = get_u32 payload (offset + 8);
          } in
          let rest = decode_records rounds payload behind path (files ++ (file ∷ [])) in
          if not (strictly_after previous path) then err paths_not_strictly_sorted else rest
    ]

unfoldable pub decode_manifest : List ℕ → ℕ → Outcome SyncCodecError (List FileRecord)
decode_manifest payload max_entries =
    let count = get_u32 payload 0 in
    if ltb (length payload) manifest_count_size
    then err payload_too_short
    else if ltb max_entries count
    then err too_many_entries
    else decode_records count payload manifest_count_size [] []

-- The loop of encode_sync_plan.
unfoldable pub encode_paths : List (List ℕ) → List ℕ → List ℕ → List ℕ
encode_paths [] previous payload = payload
encode_paths (path ∷ paths) previous payload =
    if not (strictly_after previous path) then [] else elim (append_path payload path) [
      | none ↦ []
      | some longer ↦ encode_paths paths path longer
    ]

unfoldable pub encode_sync_plan : SyncPlan → List ℕ
encode_sync_plan plan =
    if ltb (2 ^ 32 - 1) (length plan.upload_paths)
    then []
    else encode_paths plan.upload_paths [] (
        append_u32
          (append_u32 (append_u32 [] (length plan.upload_paths % 2 ^ 32)) plan.unchanged_count)
          plan.server_only_count)

-- The loop of decode_sync_plan, and the check behind it.
unfoldable pub decode_paths : ℕ → List ℕ → ℕ → List ℕ → SyncPlan → Outcome SyncCodecError SyncPlan
decode_paths zero payload offset previous plan =
    if not (offset == length payload) then err payload_size_mismatch else ok plan
decode_paths (suc rounds) payload offset previous plan = elim (decode_path payload offset) [
  | err e ↦ err e
  | ok (path, behind) ↦
      let rest =
        decode_paths rounds payload behind path
          (record plan { upload_paths = plan.upload_paths ++ (path ∷ []) }) in
      if not (strictly_after previous path) then err paths_not_strictly_sorted else rest
]

unfoldable pub decode_sync_plan : List ℕ → ℕ → Outcome SyncCodecError SyncPlan
decode_sync_plan payload max_entries =
    let count = get_u32 payload 0 in
    let plan : SyncPlan = record {
      upload_paths = [];
      unchanged_count = get_u32 payload 4;
      server_only_count = get_u32 payload 8;
    } in
    if ltb (length payload) sync_plan_prefix_size
    then err payload_too_short
    else if ltb max_entries count
    then err too_many_entries
    else decode_paths count payload sync_plan_prefix_size [] plan

unfoldable pub sync_result_code : SyncResultCode → ℕ
sync_result_code success = 0
sync_result_code destination_changed = 1

unfoldable pub encode_sync_result : SyncResultCode → List ℕ
unfolding sync_result_code
encode_sync_result code = sync_result_code code ∷ []

unfoldable pub decode_sync_result : List ℕ → Outcome SyncCodecError SyncResultCode
decode_sync_result payload =
    let raw = get_u8 payload 0 in
    if not (length payload == 1)
    then err payload_size_mismatch
    else if ltb 1 raw
    then err unknown_result_code
    else if raw == 0
    then ok success
    else ok destination_changed
