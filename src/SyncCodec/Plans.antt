-- ===== src/SyncCodec/Plans.antt =====
-- Synchronization plans and results of src/common/sync_codec.cpp, written and read back.
use syncwire.Common.{
  ℕ, zero, suc, ◌+◌, ◌%◌, ◌^◌, ◌≤◌, ◌<◌, ◌≡◌, refl, ap, sym, ◌∙◌, true, List, [], ◌∷◌, ◌++◌, length,
  length-append, arith, ok, All,
}
use mathlib.Core.List.{append_assoc, append-nil}
use syncwire.Wire.{IsU32, get_u8, get_u32, append_u16, append_u32}
use syncwire.Wire.Laws.{get_u32-append_u32, get_u32-append_right}
use syncwire.Paths.{is_safe_remote_path}
use syncwire.SyncCodec.{
  SyncPlan, SyncResultCode, success, destination_changed, decode_path, strictly_after, encode_paths,
  encode_sync_plan, decode_paths, decode_sync_plan, encode_sync_result, decode_sync_result,
}
use syncwire.SyncCodec.RoundTrip.{path_bytes, append_path_safe, decode-append_path}

abbrev pub paths_bytes : List (List ℕ) → List ℕ
paths_bytes [] = []
paths_bytes (p ∷ ps) = path_bytes p ++ paths_bytes ps

abbrev pub IsSafe : List ℕ → Type 0
IsSafe p = is_safe_remote_path p ≡ true

-- Each path is behind the one before it.
abbrev pub IsRising : List ℕ → List (List ℕ) → Type 0
IsRising previous [] = Unit {0}
IsRising previous (p ∷ ps) = (strictly_after previous p ≡ true) × IsRising p ps

encode_paths-append :
    (ps : List (List ℕ)) (previous payload : List ℕ)
    → IsRising previous ps
    → All IsSafe ps
    → encode_paths ps previous payload ≡ payload ++ paths_bytes ps
unfolding encode_paths
encode_paths-append [] previous payload o h = sym (append-nil payload)
encode_paths-append (p ∷ ps) previous payload o h =
    rw (o.0, append_path_safe payload p h.0)
      (encode_paths-append ps p (payload ++ path_bytes p) o.1 h.1
        ∙ append_assoc payload (path_bytes p) (paths_bytes ps))

length-path_bytes : (p : List ℕ) → length (path_bytes p) ≡ 2 + length p
unfolding append_u16
length-path_bytes p = omega arith

decode_paths_step :
    (n : ℕ) (payload : List ℕ) (offset : ℕ) (previous : List ℕ) (plan : SyncPlan) (p : List ℕ)
    (behind : ℕ)
    → decode_path payload offset ≡ ok (p, behind)
    → strictly_after previous p ≡ true
    → decode_paths (suc n) payload offset previous plan
      ≡ decode_paths n payload behind p
          (record plan { upload_paths = plan.upload_paths ++ (p ∷ []) })
unfolding decode_paths
decode_paths_step n payload offset previous plan p behind found after =
    rw (found, decode_paths) (rw after refl)

decode_paths-append :
    (ps : List (List ℕ)) (front previous : List ℕ) (plan : SyncPlan) (offset n : ℕ)
    → offset ≡ length front
    → n ≡ length ps
    → IsRising previous ps
    → All IsSafe ps
    → decode_paths n (front ++ paths_bytes ps) offset previous plan
      ≡ ok (record plan { upload_paths = plan.upload_paths ++ ps })
decode_paths-append [] front previous plan offset zero here count o h =
    unfold decode_paths in rw (append-nil front, append-nil plan.upload_paths) (ground arith)
decode_paths-append [] front previous plan offset (suc n) here count o h = absurd (omega arith)
decode_paths-append (p ∷ ps) front previous plan offset zero here count o h = absurd (omega arith)
decode_paths-append (p ∷ ps) front previous plan offset (suc n) here count o h =
    decode_paths_step n (front ++ paths_bytes (p ∷ ps)) offset previous plan p
      (offset + 2 + length p) (decode-append_path front p (paths_bytes ps) offset here h.0) o.0
    ∙ ap
        (λ (l : List ℕ).
          decode_paths n l (offset + 2 + length p) p
            (record plan { upload_paths = plan.upload_paths ++ (p ∷ []) }))
        (sym (append_assoc front (path_bytes p) (paths_bytes ps)))
    ∙ decode_paths-append ps (front ++ path_bytes p) p
        (record plan { upload_paths = plan.upload_paths ++ (p ∷ []) }) (offset + 2 + length p) n
        (omega (arith, here, length-append front (path_bytes p), length-path_bytes p)) (omega arith)
        o.1 h.1
    ∙ ap (λ (l : List (List ℕ)). ok (record plan { upload_paths = l }))
        (append_assoc plan.upload_paths (p ∷ []) ps)

-- A plan of at most `max_entries` safe paths in strictly rising order, with 32-bit counters, is read
-- back from its encoding.
pub decode-encode_sync_plan :
    (plan : SyncPlan) (max_entries : ℕ)
    → length plan.upload_paths ≤ max_entries
    → length plan.upload_paths < 2 ^ 32
    → IsU32 plan.unchanged_count
    → IsU32 plan.server_only_count
    → IsRising [] plan.upload_paths
    → All IsSafe plan.upload_paths
    → decode_sync_plan (encode_sync_plan plan) max_entries ≡ ok plan
unfolding decode_sync_plan append_u32
decode-encode_sync_plan plan max_entries few fits unchanged only o h =
    rw (encoded, count, same, server) (ground (arith, long, paths))
  where
    n : ℕ
    n = length plan.upload_paths % 2 ^ 32

    front : List ℕ
    front = append_u32 (append_u32 (append_u32 [] n) plan.unchanged_count) plan.server_only_count

    encoded : encode_sync_plan plan ≡ front ++ paths_bytes plan.upload_paths
    encoded =
        unfold encode_sync_plan in
        ground (arith, encode_paths-append plan.upload_paths [] front o h)

    count : get_u32 (front ++ paths_bytes plan.upload_paths) 0 ≡ n
    count =
        get_u32-append_u32
          (append_u32 [] plan.unchanged_count
            ++ (append_u32 [] plan.server_only_count ++ paths_bytes plan.upload_paths))
          n (omega arith)

    same : get_u32 (front ++ paths_bytes plan.upload_paths) 4 ≡ plan.unchanged_count
    same =
        get_u32-append_right (append_u32 [] n)
          (append_u32 [] plan.unchanged_count
            ++ (append_u32 [] plan.server_only_count ++ paths_bytes plan.upload_paths))
          4 0 refl
        ∙ get_u32-append_u32 (append_u32 [] plan.server_only_count ++ paths_bytes plan.upload_paths)
            plan.unchanged_count unchanged

    server : get_u32 (front ++ paths_bytes plan.upload_paths) 8 ≡ plan.server_only_count
    server =
        get_u32-append_right (append_u32 [] n ++ append_u32 [] plan.unchanged_count)
          (append_u32 [] plan.server_only_count ++ paths_bytes plan.upload_paths) 8 0 refl
        ∙ get_u32-append_u32 (paths_bytes plan.upload_paths) plan.server_only_count only

    long :
        length (front ++ paths_bytes plan.upload_paths)
        ≡ 12 + length (paths_bytes plan.upload_paths)
    long = omega (arith, length-append front (paths_bytes plan.upload_paths))

    paths :
        decode_paths n (front ++ paths_bytes plan.upload_paths) 12 [] (record {
          upload_paths = [];
          unchanged_count = plan.unchanged_count;
          server_only_count = plan.server_only_count;
        })
        ≡ ok plan
    paths = decode_paths-append plan.upload_paths front [] _ 12 n refl (omega arith) o h

-- Both results of a synchronization are read back.
pub decode-encode_sync_result :
    (c : SyncResultCode) → decode_sync_result (encode_sync_result c) ≡ ok c
unfolding encode_sync_result decode_sync_result get_u8
decode-encode_sync_result success = refl
decode-encode_sync_result destination_changed = refl
