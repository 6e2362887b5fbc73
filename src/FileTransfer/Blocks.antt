-- ===== src/FileTransfer/Blocks.antt =====
-- src/common/file_transfer.cpp: write_all and read_partial_prefix, the loops around ::write and ::read.
use syncwire.Common.{
  ℕ, zero, suc, ◌+◌, ◌-◌, List, Option, none, some, ltb, ◌==◌, if◌then◌else◌, length, drop, min,
  Outcome, ok, err,
}
use syncwire.Crc32.{update}
use syncwire.SocketIo.{
  Sent, sent_some, sent_zero, sent_interrupted, sent_error, Received, got_some, got_zero,
  got_interrupted, got_error,
}
use syncwire.TransferCodec.{default_chunk_size}
use syncwire.FileTransfer.{FileTransferStatus, FileTransferResult, with_errno}
use syncwire.FileTransfer.Files.{FileSystem}

abbrev pub eio : ℕ
eio = 5

module _ {World : Type 0} (fs : FileSystem World) where
  unfoldable pub write_next :
      (ℕ → World → Option (Outcome FileTransferResult (Unit {0}) × World))
      → ℕ
      → Sent
      → World
      → Option (Outcome FileTransferResult (Unit {0}) × World)
  write_next again written (sent_some n) w = again (written + n) w
  write_next again written sent_zero w =
      some (err (with_errno FileTransferStatus.file_write_error eio), w)
  write_next again written sent_interrupted w = again written w
  write_next again written (sent_error e) w =
      some (err (with_errno FileTransferStatus.file_write_error e), w)

  -- The loop of write_all, with `written` bytes gone. `none`: the fuel ran out.
  unfoldable pub write_loop :
      ℕ → fs.Fd → List ℕ → ℕ → World → Option (Outcome FileTransferResult (Unit {0}) × World)
  unfolding write_next
  write_loop zero fd block written w = none
  write_loop (suc fuel) fd block written w =
      let (answer, w') = fs.write fd (drop written block) w in
      if ltb written (length block)
      then write_next (write_loop fuel fd block) written answer w'
      else some (ok tt, w)

  unfoldable pub read_next :
      (ℕ → ℕ → World → Option (Outcome (Unit {0}) ℕ × World))
      → ℕ
      → ℕ
      → Received
      → World
      → Option (Outcome (Unit {0}) ℕ × World)
  unfolding update
  read_next again remaining checksum (got_some got) w =
      again (remaining - length got) (update checksum got) w
  read_next again remaining checksum got_zero w = some (err tt, w)
  read_next again remaining checksum got_interrupted w = again remaining checksum w
  read_next again remaining checksum (got_error e) w = some (err tt, w)

  -- The loop of read_partial_prefix, with `remaining` bytes to read: the state of the checksum, or
  -- false. `none`: the fuel ran out.
  unfoldable pub read_loop : ℕ → fs.Fd → ℕ → ℕ → World → Option (Outcome (Unit {0}) ℕ × World)
  unfolding read_next
  read_loop zero fd remaining checksum w = none
  read_loop (suc fuel) fd remaining checksum w =
      let (answer, w') = fs.read fd (min remaining default_chunk_size) w in
      if remaining == 0
      then some (ok checksum, w)
      else read_next (read_loop fuel fd) remaining checksum answer w'
