-- ===== src/Plan/Correct.antt =====
-- What a plan of src/common/sync_codec.cpp holds, file by file, for manifests in strictly rising order.
use syncwire.Common.{
  ℕ, ◌+◌, ◌%◌, ◌^◌, ◌≤◌, ◌<◌, ◌≡◌, ◌↔◌, refl, ap, sym, subst, ◌∙◌, true, ◌&&◌, List, [], ◌∷◌, ◌++◌,
  ◌==◌, if◌then◌else◌, length, All, arith, bytes_lt, bytes_eq, bytes_eq_self, bytes_lt_total,
  Bool-cases, inl, inr,
}
use mathlib.Core.List.{append_assoc, append-nil}
use syncwire.SyncCodec.{FileRecord, SyncPlan}
use syncwire.Plan.{walk, build_sync_plan}
use syncwire.Plan.Differences.{
  lists, holds, missing, kept, only_in, Behind, IsSorted, Behind-trans, holds_front, lists_front,
  missing_skip, kept_skip, only_in_skip, only_in-nil,
}

-- What the walk adds to the plan that it is given.
abbrev Adds : List FileRecord → List FileRecord → SyncPlan → SyncPlan → Type 0
Adds ss ds plan out =
    (out.upload_paths ≡ plan.upload_paths ++ missing ss ds)
    × (out.unchanged_count % 2 ^ 32 ≡ (plan.unchanged_count + kept ss ds) % 2 ^ 32)
    × (out.server_only_count % 2 ^ 32 ≡ (plan.server_only_count + only_in ds ss) % 2 ^ 32)

-- A source file in front of the destination is uploaded.
Adds-front :
    (s : FileRecord) (ss ds : List FileRecord) (plan out : SyncPlan)
    → Behind s.path ds
    → Adds ss ds (record plan { upload_paths = plan.upload_paths ++ (s.path ∷ []) }) out
    → Adds (s ∷ ss) ds plan out
unfolding missing kept
Adds-front s ss ds plan out b (up, same, only) = (
  rw (holds_front s ds b) (up ∙ append_assoc plan.upload_paths (s.path ∷ []) (missing ss ds)),
  rw (holds_front s ds b) same,
  rw (only_in_skip ds s ss b) only,
)

-- A destination file in front of the source is the server's alone.
Adds-Behind :
    (ss : List FileRecord) (d : FileRecord) (ds : List FileRecord) (plan out : SyncPlan)
    → Behind d.path ss
    → Adds ss ds (record plan { server_only_count = (plan.server_only_count + 1) % 2 ^ 32 }) out
    → Adds ss (d ∷ ds) plan out
unfolding only_in
Adds-Behind ss d ds plan out b (up, same, only) = (
  rw (missing_skip ss d ds b) up,
  rw (kept_skip ss d ds b) same,
  rw (lists_front d.path ss b) (omega arith),
)

-- A file that both list is kept or uploaded.
Adds-both :
    (s : FileRecord) (ss : List FileRecord) (d : FileRecord) (ds : List FileRecord)
    (plan out : SyncPlan)
    → s.path ≡ d.path
    → Behind s.path ss
    → Behind d.path ds
    → Adds ss ds
        (if s.size == d.size && s.checksum == d.checksum
          then record plan { unchanged_count = (plan.unchanged_count + 1) % 2 ^ 32 }
          else record plan { upload_paths = plan.upload_paths ++ (s.path ∷ []) })
        out
    → Adds (s ∷ ss) (d ∷ ds) plan out
unfolding missing kept only_in holds lists
Adds-both s ss d ds plan out e bs bd h =
    let found : bytes_eq s.path d.path ≡ true = rw e (bytes_eq_self d.path) in
    let found' : bytes_eq d.path s.path ≡ true = rw e (bytes_eq_self d.path) in
    let bs' : Behind d.path ss = subst (λ (p : List ℕ). Behind p ss) e bs in
    let bd' : Behind s.path ds = subst (λ (p : List ℕ). Behind p ds) (sym e) bd in
    elim (Bool-cases (s.size == d.size && s.checksum == d.checksum)) [
      | inl t ↦
          let (up, same, only) = rw t at h in
          rw
            (
              found,
              found',
              t,
              missing_skip ss d ds bs',
              kept_skip ss d ds bs',
              only_in_skip ds s ss bd',
            )
            (up, omega arith, only)
      | inr f ↦
          let (up, same, only) = rw f at h in
          rw
            (
              found,
              found',
              f,
              missing_skip ss d ds bs',
              kept_skip ss d ds bs',
              only_in_skip ds s ss bd',
            )
            (up ∙ append_assoc plan.upload_paths (s.path ∷ []) (missing ss ds), same, only)
    ]

walk-Adds :
    (ss ds : List FileRecord) (plan : SyncPlan)
    → IsSorted ss
    → IsSorted ds
    → Adds ss ds plan (walk ss ds plan)
unfolding walk
walk-Adds [] ds plan hs hd = (
  unfold missing in sym (append-nil plan.upload_paths),
  unfold kept in omega arith,
  omega (arith, only_in-nil ds),
)
walk-Adds (s ∷ ss) [] plan hs hd = Adds-front s ss [] plan _ tt (walk-Adds ss [] _ hs.1 tt)
walk-Adds (s ∷ ss) (d ∷ ds) plan hs hd = elim (Bool-cases (bytes_lt s.path d.path)) [
  | inl t ↦
      rw (t, walk)
        (Adds-front s ss (d ∷ ds) plan _ (t, Behind-trans s.path d.path ds t hd.0)
          (walk-Adds ss (d ∷ ds) _ hs.1 hd))
  | inr f ↦ elim (Bool-cases (bytes_lt d.path s.path)) [
    | inl t ↦
        rw (f, t, walk)
          (Adds-Behind (s ∷ ss) d ds plan _ (t, Behind-trans d.path s.path ss t hs.0)
            (walk-Adds (s ∷ ss) ds _ hs hd.1))
    | inr f' ↦
        rw (f, f', walk)
          (Adds-both s ss d ds plan _ (bytes_lt_total s.path d.path f f') hs.0 hd.0
            (walk-Adds ss ds _ hs.1 hd.1))
  ]
]

-- The counters stay 32-bit words.
abbrev IsCounted : SyncPlan → Type 0
IsCounted plan = (plan.unchanged_count < 2 ^ 32) × (plan.server_only_count < 2 ^ 32)

walk-IsCounted :
    (ss ds : List FileRecord) (plan : SyncPlan) → IsCounted plan → IsCounted (walk ss ds plan)
unfolding walk
walk-IsCounted [] ds plan h = omega arith
walk-IsCounted (s ∷ ss) [] plan h = walk-IsCounted ss [] _ h
walk-IsCounted (s ∷ ss) (d ∷ ds) plan h = elim (Bool-cases (bytes_lt s.path d.path)) [
  | inl t ↦ rw (t, walk) (walk-IsCounted ss (d ∷ ds) _ h)
  | inr f ↦ elim (Bool-cases (bytes_lt d.path s.path)) [
    | inl t ↦ rw (f, t, walk) (walk-IsCounted (s ∷ ss) ds _ (h.0, omega arith))
    | inr f' ↦ rw (f, f', walk) (walk-IsCounted ss ds _ (ground arith))
  ]
]

kept-missing : (ss ds : List FileRecord) → length (missing ss ds) + kept ss ds ≡ length ss
unfolding missing kept
kept-missing [] ds = omega arith
kept-missing (s ∷ ss) ds = ground (arith, kept-missing ss ds)

only_in-le : (ds ss : List FileRecord) → only_in ds ss ≤ length ds
unfolding only_in
only_in-le [] ss = omega arith
only_in-le (d ∷ ds) ss = ground (arith, only_in-le ds ss)

-- For two manifests in strictly rising order, each of less than 2 ^ 32 files, the plan uploads exactly
-- the source files that the destination does not hold with the same size and checksum, in the
-- order of the source, and counts those that it holds and those that only the destination lists.
pub build_sync_plan_lem :
    (ss ds : List FileRecord)
    → IsSorted ss
    → IsSorted ds
    → length ss < 2 ^ 32
    → length ds < 2 ^ 32
    → ((build_sync_plan ss ds).upload_paths ≡ missing ss ds)
      × ((build_sync_plan ss ds).unchanged_count ≡ kept ss ds)
      × ((build_sync_plan ss ds).server_only_count ≡ only_in ds ss)
unfolding build_sync_plan
build_sync_plan_lem ss ds hs hd few few' =
    let start : SyncPlan = record {
      upload_paths = [];
      unchanged_count = 0;
      server_only_count = 0;
    } in
    let (up, same, only) = walk-Adds ss ds start hs hd in
    let (small, small') = walk-IsCounted ss ds start (omega arith) in
    (
      up,
      omega (arith, same, small, kept-missing ss ds),
      omega (arith, only, small', only_in-le ds ss),
    )

-- For two manifests in strictly rising order, each of less than 2 ^ 32 files, the uploads and the
-- unchanged files of the plan are together as many as the files of the source.
pub build_sync_plan-length :
    (ss ds : List FileRecord)
    → IsSorted ss
    → IsSorted ds
    → length ss < 2 ^ 32
    → length ds < 2 ^ 32
    → length (build_sync_plan ss ds).upload_paths + (build_sync_plan ss ds).unchanged_count
      ≡ length ss
build_sync_plan-length ss ds hs hd few few' =
    let (up, same, _) = build_sync_plan_lem ss ds hs hd few few' in
    omega (arith, same, ap length up, kept-missing ss ds)

missing-nil_iff :
    (ss ds : List FileRecord)
    → (missing ss ds ≡ []) ↔ All (λ (s : FileRecord). holds s ds ≡ true) ss
unfolding missing
missing-nil_iff [] ds = (λ _. tt, λ _. refl)
missing-nil_iff (s ∷ ss) ds = elim (Bool-cases (holds s ds)) [
  | inl t ↦
      rw (t, missing) (λ e. (refl, (missing-nil_iff ss ds).0 e), λ h. (missing-nil_iff ss ds).1 h.1)
  | inr f ↦ rw (f, missing) (λ e. cc, λ h. cc h.0)
]

-- For two manifests in strictly rising order, each of less than 2 ^ 32 files, the plan has no upload
-- exactly when the destination holds every source file with its size and checksum.
pub build_sync_plan-nil_iff :
    (ss ds : List FileRecord)
    → IsSorted ss
    → IsSorted ds
    → length ss < 2 ^ 32
    → length ds < 2 ^ 32
    → ((build_sync_plan ss ds).upload_paths ≡ []) ↔ All (λ (s : FileRecord). holds s ds ≡ true) ss
build_sync_plan-nil_iff ss ds hs hd few few' =
    let (up, _, _) = build_sync_plan_lem ss ds hs hd few few' in rw up (missing-nil_iff ss ds)
