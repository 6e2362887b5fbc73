-- ===== src/FileTransfer/Files.antt =====
-- The calls of the operating system and of std::filesystem that src/common/file_transfer.cpp makes.
use syncwire.Common.{
  ℕ, ◌+◌, ◌≤◌, ◌<◌, ◌≡◌, ◌≢◌, ◌⊎◌, Bool, List, [], ◌∷◌, ◌++◌, Option, none, some, length, take,
  drop, Outcome, ok, err,
}
use syncwire.SocketIo.{
  Sent, sent_some, sent_zero, sent_interrupted, sent_error, Received, got_some, got_zero,
  got_interrupted, got_error,
}

-- A path is the list of its components.
abbrev pub FilePath : Type 0
FilePath = List (List ℕ)

-- What symlink_status finds.
pub data FileStatus : Type 0 where
  missing directory symlink regular other_kind : FileStatus
  status_error : ℕ → FileStatus

-- The fields of struct stat that the code reads. A regular file has no negative size.
pub record Stat : Type 0 where
  pub is_regular : Bool
  pub st_nlink : ℕ
  pub st_uid : ℕ
  pub st_size : ℕ

-- One entry of a directory_iterator: its name, and what symlink_status and file_size say of it.
pub record Entry : Type 0 where
  pub name : List ℕ
  pub status : FileStatus
  pub size : Option ℕ

-- The calls, over all that they depend on. A failed call gives errno; what a call that only
-- asks may see is a function of the state. A directory is listed entry by entry, and the flag says
-- whether the listing ended in an error. Closing a descriptor is left out: it changes no file.
pub record FileSystem (World : Type 0) : Type 1 where
  pub Fd : Type 0
  pub symlink_status : FilePath → World → FileStatus
  pub create_directories : FilePath → World → Option ℕ × World
  pub create_directory : FilePath → World → Option ℕ × World
  pub mkdir : FilePath → World → Option ℕ × World
  pub digest : List ℕ → World → Option (List ℕ)
  pub open_directory : FilePath → World → Outcome ℕ Fd × World
  pub list_directory : FilePath → World → List Entry × Bool
  pub openat : Fd → List ℕ → World → Outcome ℕ Fd × World
  pub fstat : Fd → World → Option Stat
  pub geteuid : World → ℕ
  pub flock : Fd → World → Bool × World
  pub read : Fd → ℕ → World → Received × World
  pub write : Fd → List ℕ → World → Sent × World
  pub ftruncate : Fd → World → Option ℕ × World
  pub lseek_start : Fd → World → Option ℕ × World
  pub fsync : Fd → World → Option ℕ × World
  pub unlinkat : Fd → List ℕ → World → World
  pub rename : FilePath → FilePath → World → Option ℕ × World

-- A view of the files in a state: the file that a path names, if any; the file behind a descriptor, its
-- position, and the path that a directory's descriptor was opened at; the bytes of a file; and the
-- signals that will still interrupt a call.
pub record FileView {World : Type 0} (fs : FileSystem World) : Type 1 where
  pub Inode : Type 0
  pub inode : fs.Fd → Inode
  pub directory_path : fs.Fd → FilePath
  pub file_at : FilePath → World → Option Inode
  pub bytes : Inode → World → List ℕ
  pub position : fs.Fd → World → ℕ
  pub signals : World → ℕ

module _ {World : Type 0} {fs : FileSystem World} (v : FileView fs) where
  -- Nothing in the view has changed but, perhaps, that fewer signals are to come.
  pub record Same (w w' : World) : Type 0 where
    pub same_files : (p : FilePath) → v.file_at p w' ≡ v.file_at p w
    pub same_bytes : (g : v.Inode) → v.bytes g w' ≡ v.bytes g w
    pub same_position : (fd : fs.Fd) → v.position fd w' ≡ v.position fd w
    pub quieter : v.signals w' ≤ v.signals w

  -- Only the bytes behind one descriptor, and its position, may have changed.
  pub record OnlyFile (fd : fs.Fd) (w w' : World) : Type 0 where
    pub same_files : (p : FilePath) → v.file_at p w' ≡ v.file_at p w
    pub same_others : (g : v.Inode) → g ≢ v.inode fd → v.bytes g w' ≡ v.bytes g w
    pub quieter : v.signals w' ≤ v.signals w

  -- write(2), at the descriptor's position.
  abbrev pub WriteWell : fs.Fd → List ℕ → Sent → World → World → Type 0
  WriteWell fd data_bytes (sent_some n) w w' =
      (0 < n)
      × (n ≤ length data_bytes)
      × (v.bytes (v.inode fd) w'
          ≡ take (v.position fd w) (v.bytes (v.inode fd) w)
            ++ (take n data_bytes ++ drop (v.position fd w + n) (v.bytes (v.inode fd) w)))
      × (v.position fd w' ≡ v.position fd w + n)
      × OnlyFile fd w w'
  WriteWell fd data_bytes sent_zero w w' = Same w w'
  WriteWell fd data_bytes sent_interrupted w w' = Same w w' × (v.signals w' < v.signals w)
  WriteWell fd data_bytes (sent_error e) w w' = Same w w'

  -- read(2), at the descriptor's position.
  abbrev pub ReadWell : fs.Fd → ℕ → Received → World → World → Type 0
  ReadWell fd n (got_some got) w w' =
      (0 < length got)
      × (length got ≤ n)
      × (take (length got) (drop (v.position fd w) (v.bytes (v.inode fd) w)) ≡ got)
      × (v.position fd w' ≡ v.position fd w + length got)
      × (v.bytes (v.inode fd) w' ≡ v.bytes (v.inode fd) w)
      × OnlyFile fd w w'
  ReadWell fd n got_zero w w' = Same w w'
  ReadWell fd n got_interrupted w w' = Same w w' × (v.signals w' < v.signals w)
  ReadWell fd n (got_error e) w w' = Same w w'

  -- openat(2) with O_CREAT, by its outcome: only the name that it opens may be new, and what the other
  -- files hold stays.
  pub record Opened (d : fs.Fd) (name : List ℕ) (fd : fs.Fd) (w w' : World) : Type 0 where
    pub named : v.file_at (v.directory_path d ++ (name ∷ [])) w' ≡ some (v.inode fd)
    pub others :
        (p : FilePath) → p ≢ v.directory_path d ++ (name ∷ []) → v.file_at p w' ≡ v.file_at p w
    pub held : (p : FilePath) (g : v.Inode) → v.file_at p w ≡ some g → v.bytes g w' ≡ v.bytes g w
    pub at_start : v.position fd w' ≡ 0
    pub quieter : v.signals w' ≤ v.signals w

-- What the manual pages and std::filesystem say of the calls, in terms of the view.
pub record FileLaws {World : Type 0} {fs : FileSystem World} (v : FileView fs) : Type 0 where
  pub create_directories_law : (p : FilePath) (w : World) → Same v w (fs.create_directories p w).1
  pub create_directory_law : (p : FilePath) (w : World) → Same v w (fs.create_directory p w).1
  pub mkdir_law : (p : FilePath) (w : World) → Same v w (fs.mkdir p w).1
  pub open_directory_law :
      (p : FilePath) (w : World)
      → Same v w (fs.open_directory p w).1
        × ((d : fs.Fd) → (fs.open_directory p w).0 ≡ ok d → v.directory_path d ≡ p)
  pub openat_law :
      (d : fs.Fd) (name : List ℕ) (w : World)
      → ((e : ℕ) × (fs.openat d name w ≡ (err e, (fs.openat d name w).1))
          × Same v w (fs.openat d name w).1)
        ⊎ ((fd : fs.Fd) × (fs.openat d name w ≡ (ok fd, (fs.openat d name w).1))
            × Opened v d name fd w (fs.openat d name w).1)
  pub fstat_law :
      (fd : fs.Fd) (w : World) (s : Stat)
      → fs.fstat fd w ≡ some s
      → (s.st_size ≡ length (v.bytes (v.inode fd) w))
        × (s.st_nlink ≡ 1
            → (p q : FilePath) → v.file_at p w ≡ some (v.inode fd)
            → v.file_at q w ≡ some (v.inode fd)
            → p ≡ q)
  pub flock_law : (fd : fs.Fd) (w : World) → Same v w (fs.flock fd w).1
  pub read_law :
      (fd : fs.Fd) (n : ℕ) (w : World) → ReadWell v fd n (fs.read fd n w).0 w (fs.read fd n w).1
  pub write_law :
      (fd : fs.Fd) (b : List ℕ) (w : World)
      → WriteWell v fd b (fs.write fd b w).0 w (fs.write fd b w).1
  pub ftruncate_law :
      (fd : fs.Fd) (w : World)
      → OnlyFile v fd w (fs.ftruncate fd w).1
        × (v.position fd (fs.ftruncate fd w).1 ≡ v.position fd w)
        × ((fs.ftruncate fd w).0 ≡ none → v.bytes (v.inode fd) (fs.ftruncate fd w).1 ≡ [])
  pub lseek_law :
      (fd : fs.Fd) (w : World)
      → OnlyFile v fd w (fs.lseek_start fd w).1
        × (v.bytes (v.inode fd) (fs.lseek_start fd w).1 ≡ v.bytes (v.inode fd) w)
        × ((fs.lseek_start fd w).0 ≡ none → v.position fd (fs.lseek_start fd w).1 ≡ 0)
  pub fsync_law : (fd : fs.Fd) (w : World) → Same v w (fs.fsync fd w).1
  pub unlinkat_law :
      (d : fs.Fd) (name : List ℕ) (w : World)
      → ((p : FilePath)
          → p ≢ v.directory_path d ++ (name ∷ [])
          → v.file_at p (fs.unlinkat d name w) ≡ v.file_at p w)
        × ((g : v.Inode) → v.bytes g (fs.unlinkat d name w) ≡ v.bytes g w)
  pub rename_law :
      (p q : FilePath) (w : World)
      → ((e : ℕ) × ((fs.rename p q w).0 ≡ some e) × Same v w (fs.rename p q w).1)
        ⊎ (((fs.rename p q w).0 ≡ none)
            × (v.file_at q (fs.rename p q w).1 ≡ v.file_at p w)
            × ((g : v.Inode) → v.bytes g (fs.rename p q w).1 ≡ v.bytes g w))
