-- ===== src/FileTransfer/Destination/Budget.antt =====
-- within_partial_budget of src/common/file_transfer.cpp, against the sums that it bounds.
use syncwire.Common.{
  ℕ, suc, ◌+◌, ◌≤◌, ◌≡◌, ◌≢◌, ◌↔◌, ap, sym, subst, Bool, true, false, List, [], ◌∷◌, Option, none,
  some, not, ◌&&◌, ltb, if◌then◌else◌, length, All, bytes_eq, arith, Option-cases, Bool-cases, inl,
  inr,
}
use syncwire.TransferCodec.{UploadMetadata}
use syncwire.FileTransfer.{TransferLimits}
use syncwire.FileTransfer.Files.{Entry, FileSystem}
use syncwire.FileTransfer.Destination.{
  PreparedDestination, parent_path, is_regular_file, budget_loop, within_partial_budget,
}

-- The entries with another name than the upload's own partial file.
abbrev pub others : List ℕ → List Entry → List Entry
others own [] = []
others own (entry ∷ entries) =
    let rest = others own entries in if bytes_eq entry.name own then rest else entry ∷ rest

abbrev pub size_of : Option ℕ → ℕ
size_of none = 0
size_of (some n) = n

abbrev pub total_size : List Entry → ℕ
total_size [] = 0
total_size (entry ∷ entries) = size_of entry.size + total_size entries

abbrev pub IsPartial : Entry → Type 0
IsPartial entry = (is_regular_file entry.status ≡ true) × (entry.size ≢ none)

-- The entries are regular files whose sizes are known, and they fit beside `bytes` bytes and `count` files.
pub record Fits (limits : TransferLimits) (entries : List Entry) (bytes count : ℕ) : Type 0 where
  pub partials : All IsPartial entries
  pub few_bytes : bytes + total_size entries ≤ limits.max_partial_bytes
  pub few_files : count + length entries ≤ limits.max_partial_files

abbrev Is : TransferLimits → List ℕ → List Entry → ℕ → ℕ → Type 0
Is limits own entries bytes count =
    (budget_loop limits own entries bytes count ≡ true)
    ↔ Fits limits (others own entries) bytes count

-- One entry that is another file: it is counted exactly when it is sized and fits.
budget_loop-other :
    (limits : TransferLimits) (own : List ℕ) (entry : Entry) (entries : List Entry)
    (bytes count : ℕ)
    → bytes ≤ limits.max_partial_bytes
    → bytes_eq entry.name own ≡ false
    → budget_loop limits own (entry ∷ entries) bytes count ≡ true
    → (is_regular_file entry.status ≡ true)
      × (size : ℕ) × (entry.size ≡ some size)
      × (bytes + size ≤ limits.max_partial_bytes)
      × (budget_loop limits own entries (bytes + size) (suc count) ≡ true)
unfolding budget_loop
budget_loop-other limits own entry entries bytes count h other e =
    elim (Bool-cases (is_regular_file entry.status)) [
      | inr irregular ↦ absurd (ground (arith, other, irregular, e))
      | inl file ↦ elim (Option-cases entry.size) [
        | inl unsized ↦ absurd (ground (arith, other, file, unsized, e))
        | inr (size, sized) ↦ (file, size, sized, ground arith, ground arith)
      ]
    ]

budget_loop-counts :
    (limits : TransferLimits) (own : List ℕ) (entry : Entry) (entries : List Entry)
    (bytes count size : ℕ)
    → bytes_eq entry.name own ≡ false
    → is_regular_file entry.status ≡ true
    → entry.size ≡ some size
    → bytes + size ≤ limits.max_partial_bytes
    → suc count ≤ limits.max_partial_files
    → budget_loop limits own entries (bytes + size) (suc count) ≡ true
    → budget_loop limits own (entry ∷ entries) bytes count ≡ true
unfolding budget_loop
budget_loop-counts limits own entry entries bytes count size other file sized small few e =
    ground arith

size_of-some : (o : Option ℕ) (n : ℕ) → o ≡ some n → size_of o ≡ n
size_of-some o n e = ap size_of e

budget_loop-Fits :
    (limits : TransferLimits) (own : List ℕ) (entries : List Entry) (bytes count : ℕ)
    → bytes ≤ limits.max_partial_bytes
    → Is limits own entries bytes count
unfolding budget_loop
budget_loop-Fits limits own [] bytes count h = (
  λ e. record { partials = tt; few_bytes = omega arith; few_files = ground arith },
  λ f. ground (arith, f.few_files),
)
budget_loop-Fits limits own (entry ∷ entries) bytes count h =
    elim (Bool-cases (bytes_eq entry.name own)) [
      | inl same ↦ rw (same, budget_loop) (budget_loop-Fits limits own entries bytes count h)
      | inr other ↦ (
        λ e.
            let (file, size, sized, small, rest) =
              budget_loop-other limits own entry entries bytes count h other e in
            let f = (budget_loop-Fits limits own entries (bytes + size) (suc count) small).0 rest in
            subst
              (λ (b : Bool).
                Fits limits (if b then others own entries else entry ∷ others own entries) bytes
                  count)
              (sym other)
              (record {
                partials = ((file, λ none_. cc (none_, sized)), f.partials);
                few_bytes = omega (arith, f.few_bytes, size_of-some entry.size size sized);
                few_files = omega (arith, f.few_files);
              }),
        λ f'.
            let f =
              subst
                (λ (b : Bool).
                  Fits limits (if b then others own entries else entry ∷ others own entries) bytes
                    count)
                other f' in
            elim (Option-cases entry.size) [
              | inl unsized ↦ absurd (f.partials.0.1 unsized)
              | inr (size, sized) ↦
                  budget_loop-counts limits own entry entries bytes count size other f.partials.0.0
                    sized (omega (arith, f.few_bytes, size_of-some entry.size size sized))
                    (omega (arith, f.few_files))
                    ((budget_loop-Fits limits own entries (bytes + size) (suc count)
                        (omega (arith, f.few_bytes, size_of-some entry.size size sized))).1
                      (record {
                        partials = f.partials.1;
                        few_bytes = omega (arith, f.few_bytes, size_of-some entry.size size sized);
                        few_files = omega (arith, f.few_files);
                      }))
            ],
      )
    ]

module _ {World : Type 0} (fs : FileSystem World) where
  -- The budget is kept exactly when the listing of the partial directory ends without an error, each
  -- entry but the upload's own partial file is a regular file of known size, the declared size of the
  -- upload and those sizes come to at most max_partial_bytes, and the upload and those files to at most
  -- max_partial_files.
  pub within_partial_budget-Fits :
      (prepared : PreparedDestination fs.Fd) (metadata : UploadMetadata) (limits : TransferLimits)
      (w : World)
      → (within_partial_budget fs prepared metadata limits w ≡ true) ↔ (
          ((fs.list_directory (parent_path prepared.part_path) w).1 ≡ false)
          × Fits limits
              (others prepared.part_name (fs.list_directory (parent_path prepared.part_path) w).0)
              metadata.file_size
              1)
  unfolding within_partial_budget
  within_partial_budget-Fits prepared metadata limits w =
      let listed = fs.list_directory (parent_path prepared.part_path) w in
      (
        λ e.
            let (fine, small) = both metadata.file_size limits.max_partial_bytes _ listed.1 e in
            (
              fine.1,
              (budget_loop-Fits limits prepared.part_name listed.0 metadata.file_size 1 small).0
                  fine.0,
            ),
        λ (ended, f). ground (
          arith,
          f.few_bytes,
          ended,
          (budget_loop-Fits limits prepared.part_name listed.0 metadata.file_size 1
                (omega (arith, f.few_bytes))).1
              f,
        ),
      )
    where
      both :
          (size most : ℕ) (a b : Bool)
          → (if ltb most size then false else a && not b) ≡ true
          → ((a ≡ true) × (b ≡ false)) × (size ≤ most)
      both size most a b e = ground arith
