-- ===== src/SyncCodec/RoundTrip.antt =====
-- Manifests of src/common/sync_codec.cpp, written and read back.
use syncwire.Common.{
  ℕ, zero, suc, ◌+◌, ◌-◌, ◌%◌, ◌^◌, ◌≤◌, ◌<◌, ◌≡◌, refl, ap, sym, ◌∙◌, true, false, List, [], ◌∷◌,
  ◌++◌, some, length, take, drop, length-append, arith, ok, All, take-append, drop-append,
  drop-drop, ltb, ◌||◌,
}
use mathlib.Core.List.{append_assoc, append-nil}
use syncwire.Wire.{IsU32, IsU64, get_u16, get_u32, get_u64, append_u16, append_u32, append_u64}
use syncwire.Wire.Laws.{
  get_u16-append_u16, get_u32-append_u32, get_u64-append_u64, get_u16-append_right,
  get_u32-append_right, get_u64-append_right,
}
use syncwire.Paths.{is_safe_remote_path}
use syncwire.Paths.Components.{is_safe-length}
use syncwire.SyncCodec.{
  FileRecord, append_path, decode_path, strictly_after, encode_records, encode_manifest,
  decode_records, decode_manifest,
}

-- A path on the wire.
abbrev pub path_bytes : List ℕ → List ℕ
path_bytes path = append_u16 [] (length path) ++ path

pub append_path_safe :
    (output path : List ℕ)
    → is_safe_remote_path path ≡ true
    → append_path output path ≡ some (output ++ path_bytes path)
unfolding append_path append_u16
append_path_safe output path safe = rw safe (
    ground
      (arith, is_safe-length path safe, append_assoc output (append_u16 [] (length path)) path))

pub decode-append_path :
    (front path behind : List ℕ) (offset : ℕ)
    → offset ≡ length front
    → is_safe_remote_path path ≡ true
    → decode_path (front ++ (path_bytes path ++ behind)) offset
      ≡ ok (path, offset + 2 + length path)
unfolding decode_path append_u16
decode-append_path front path behind offset here safe =
    rw (size, name) (ground (arith, long, bounds, safe))
  where
    whole : List ℕ
    whole = front ++ (path_bytes path ++ behind)

    bounds : (0 < length path) × (length path ≤ 1024)
    bounds = is_safe-length path safe

    size : get_u16 whole offset ≡ length path
    size =
        get_u16-append_right front (path_bytes path ++ behind) offset 0 (omega arith)
        ∙ get_u16-append_u16 (path ++ behind) (length path) (omega (arith, bounds))

    name : take (length path) (drop (offset + 2) whole) ≡ path
    name =
        ap (take (length path)) (
          sym (drop-drop offset 2 whole)
          ∙ ap (drop 2) (drop-append front (path_bytes path ++ behind) offset here))
        ∙ take-append path behind (length path) refl

    long : length whole ≡ offset + (2 + (length path + length behind))
    long =
        omega
          (arith, here, length-append front (path_bytes path ++ behind), length-append path behind)

-- A record on the wire.
abbrev pub record_bytes : FileRecord → List ℕ
record_bytes f = append_u64 [] f.size ++ (append_u32 [] f.checksum ++ path_bytes f.path)

abbrev pub records_bytes : List FileRecord → List ℕ
records_bytes [] = []
records_bytes (f ∷ fs) = record_bytes f ++ records_bytes fs

abbrev pub IsRecord : FileRecord → Type 0
IsRecord f = (is_safe_remote_path f.path ≡ true) × IsU64 f.size × IsU32 f.checksum

-- Each path is behind the one before it.
abbrev pub IsOrdered : List ℕ → List FileRecord → Type 0
IsOrdered previous [] = Unit {0}
IsOrdered previous (f ∷ fs) = (strictly_after previous f.path ≡ true) × IsOrdered f.path fs

pub encode_records-append :
    (fs : List FileRecord) (previous payload : List ℕ)
    → IsOrdered previous fs
    → All IsRecord fs
    → encode_records fs previous payload ≡ payload ++ records_bytes fs
unfolding encode_records append_u32 append_u64
encode_records-append [] previous payload o h = sym (append-nil payload)
encode_records-append (f ∷ fs) previous payload o h =
    rw (o.0, append_path_safe (append_u32 (append_u64 payload f.size) f.checksum) f.path h.0.0)
      (encode_records-append fs f.path _ o.1 h.1 ∙ simp append_assoc)

-- One round of the loop of decode_manifest.
decode_records_step :
    (n : ℕ) (payload : List ℕ) (offset : ℕ) (previous : List ℕ) (done : List FileRecord)
    (f : FileRecord) (behind : ℕ)
    → offset + 12 ≤ length payload
    → decode_path payload (offset + 12) ≡ ok (f.path, behind)
    → get_u64 payload offset ≡ f.size
    → get_u32 payload (offset + 8) ≡ f.checksum
    → strictly_after previous f.path ≡ true
    → decode_records (suc n) payload offset previous done
      ≡ decode_records n payload behind f.path (done ++ (f ∷ []))
unfolding decode_records
decode_records_step n payload offset previous done f behind room path size sum after =
    rw (enough, path, size, sum) (rw after refl)
  where
    enough : (ltb (length payload) offset || ltb (length payload - offset) 12) ≡ false
    enough = ground arith

-- A record behind a front part is read back.
module _ (front behind : List ℕ) (f : FileRecord) (offset : ℕ) (here : offset ≡ length front) where
  numbers : List ℕ
  numbers = append_u64 [] f.size ++ append_u32 [] f.checksum

  whole : List ℕ
  whole = front ++ (record_bytes f ++ behind)

  whole-numbers : whole ≡ (front ++ numbers) ++ (path_bytes f.path ++ behind)
  unfolding whole numbers append_u64 append_u32
  whole-numbers = sym (append_assoc front numbers (path_bytes f.path ++ behind))

  read_path :
      is_safe_remote_path f.path ≡ true
      → decode_path whole (offset + 12) ≡ ok (f.path, offset + 12 + 2 + length f.path)
  read_path safe = rw whole-numbers (
      decode-append_path (front ++ numbers) f.path behind (offset + 12)
        (unfold numbers append_u64 append_u32 in omega (arith, length-append front numbers, here))
        safe)

  read_size : IsU64 f.size → get_u64 whole offset ≡ f.size
  unfolding whole append_u64
  read_size fits =
      get_u64-append_right front (record_bytes f ++ behind) offset 0 (omega arith)
      ∙ get_u64-append_u64 ((append_u32 [] f.checksum ++ path_bytes f.path) ++ behind) f.size fits

  read_checksum : IsU32 f.checksum → get_u32 whole (offset + 8) ≡ f.checksum
  unfolding whole append_u64 append_u32
  read_checksum fits =
      get_u32-append_right front (record_bytes f ++ behind) (offset + 8) 8 (omega arith)
      ∙ get_u32-append_right (append_u64 [] f.size)
          (append_u32 [] f.checksum ++ (path_bytes f.path ++ behind)) 8 0 refl
      ∙ get_u32-append_u32 (path_bytes f.path ++ behind) f.checksum fits

length-record_bytes : (f : FileRecord) → length (record_bytes f) ≡ 14 + length f.path
unfolding append_u64 append_u32 append_u16
length-record_bytes f = omega arith

-- Records behind a front part of the payload, and nothing behind them.
pub decode_records-append :
    (fs : List FileRecord) (front previous : List ℕ) (done : List FileRecord) (offset n : ℕ)
    → offset ≡ length front
    → n ≡ length fs
    → IsOrdered previous fs
    → All IsRecord fs
    → decode_records n (front ++ records_bytes fs) offset previous done ≡ ok (done ++ fs)
decode_records-append [] front previous done offset zero here count o h =
    unfold decode_records in rw (append-nil front, append-nil done) (ground arith)
decode_records-append [] front previous done offset (suc n) here count o h = absurd (omega arith)
decode_records-append (f ∷ fs) front previous done offset zero here count o h = absurd (omega arith)
decode_records-append (f ∷ fs) front previous done offset (suc n) here count o h =
    decode_records_step n (front ++ records_bytes (f ∷ fs)) offset previous done f
      (offset + 12 + 2 + length f.path)
      (omega (
        arith,
        length-append front (record_bytes f ++ records_bytes fs),
        length-append (record_bytes f) (records_bytes fs),
        length-record_bytes f,
      ))
      (unfold whole in read_path front (records_bytes fs) f offset here h.0.0)
      (unfold whole in read_size front (records_bytes fs) f offset here h.0.1)
      (unfold whole in read_checksum front (records_bytes fs) f offset here h.0.2) o.0
    ∙ ap
        (λ (l : List ℕ).
          decode_records n l (offset + 12 + 2 + length f.path) f.path (done ++ (f ∷ [])))
        (sym (append_assoc front (record_bytes f) (records_bytes fs)))
    ∙ decode_records-append fs (front ++ record_bytes f) f.path (done ++ (f ∷ []))
        (offset + 12 + 2 + length f.path) n
        (omega (arith, here, length-append front (record_bytes f), length-record_bytes f))
        (omega arith) o.1 h.1
    ∙ ap ok (append_assoc done (f ∷ []) fs)

encode_manifest_bytes :
    (fs : List FileRecord)
    → length fs < 2 ^ 32
    → IsOrdered [] fs
    → All IsRecord fs
    → encode_manifest fs ≡ append_u32 [] (length fs % 2 ^ 32) ++ records_bytes fs
unfolding encode_manifest
encode_manifest_bytes fs fits o h =
    ground (arith, encode_records-append fs [] (append_u32 [] (length fs % 2 ^ 32)) o h)

-- A manifest of at most `max_entries` records, with safe paths in strictly rising order, 64-bit sizes
-- and 32-bit checksums, is read back from its encoding.
pub decode-encode_manifest :
    (fs : List FileRecord) (max_entries : ℕ)
    → length fs ≤ max_entries
    → length fs < 2 ^ 32
    → IsOrdered [] fs
    → All IsRecord fs
    → decode_manifest (encode_manifest fs) max_entries ≡ ok fs
unfolding decode_manifest
decode-encode_manifest fs max_entries few fits o h = rw (encode_manifest_bytes fs fits o h) (
    rw (get_u32-append_u32 (records_bytes fs) (length fs % 2 ^ 32) (omega arith))
      (ground (arith, long, four, records)))
  where
    front : List ℕ
    front = append_u32 [] (length fs % 2 ^ 32)

    long : length (front ++ records_bytes fs) ≡ length front + length (records_bytes fs)
    long = length-append front (records_bytes fs)

    four : length front ≡ 4
    four = unfold append_u32 in refl

    records : decode_records (length fs % 2 ^ 32) (front ++ records_bytes fs) 4 [] [] ≡ ok fs
    records =
        decode_records-append fs front [] [] 4 (length fs % 2 ^ 32) (sym four) (omega arith) o h
