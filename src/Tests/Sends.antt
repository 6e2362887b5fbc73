-- ===== src/Tests/Sends.antt =====
-- An upload of three bytes in chunks of two, to a server whose frames are written out.
use syncwire.Common.{
  ℕ, ◌+◌, ◌≡◌, refl, sym, ap, bytes_eq, List, [], ◌∷◌, ◌++◌, true, take, drop, none, Outcome, ok,
  err,
}
use syncwire.Protocol.{Frame, type_eq, type_code, transfer_ready, acknowledgment, transfer_result}
use syncwire.Crc32.{file_of, update, value, update_all}
use syncwire.Paths.{is_safe_remote_path, has_forbidden, find, is_bad_component, components_loop}
use syncwire.TransferCodec.{
  TransferResultCode, encode_transfer_ready, encode_offset, encode_transfer_result,
  decode_transfer_ready, decode_offset, decode_transfer_result, known_result_code, result_code,
}
use syncwire.Wire.{get_u8, get_u32, get_u64, be_loop, append_u32, append_u64}
use syncwire.FrameIo.{FrameIoResult, FrameIoStatus}
use syncwire.PingPong.{frame_io_default}
use syncwire.Link.{Link}
use syncwire.FileTransfer.{
  TransferLimits, transfer_ok, make_frame, valid_limits, decode_remote_result,
  receive_expected_frame, check_expected_frame,
}
use syncwire.FileTransfer.Send.{
  Source, send_file, run_upload, check_upload, read_source_metadata, check_source_size,
  send_or_fail, await_ready, check_ready, check_checkpoint, upload, choose_offset, rewind_unless,
  read_prefix, send_chunks, send_chunk, check_acknowledgment, conclude_upload,
}
use syncwire.FileTransfer.Send.Sent.{SourceLaws}
use syncwire.FileTransfer.Send.Whole.{Uploaded, send_file-Uploaded}

abbrev three_bytes : List ℕ
three_bytes = 7 ∷ 9 ∷ 11 ∷ []

record Sender : Type 0 where
  at : ℕ
  gone : List Frame
  coming : List Frame

abbrev source : Source Sender
source = record {
  file_size = λ w. ok 3;
  open_input = λ w. (none, record w { at = 0 });
  read_blocks = λ w. (ok (three_bytes ∷ []), w);
  read = λ n w. (take n (drop w.at three_bytes), record w { at = w.at + n });
  seek_start = λ w. (true, record w { at = 0 });
  errno = λ w. 0;
}

abbrev take_frame : List Frame → Sender → Outcome FrameIoResult Frame × Sender
take_frame [] w = (err (record frame_io_default { status = FrameIoStatus.peer_closed }), w)
take_frame (f ∷ fs) w = (ok f, record w { coming = fs })

abbrev line : Link
line = record {
  World = Sender;
  send = λ f w. (frame_io_default, record w { gone = w.gone ++ (f ∷ []) });
  receive = λ w. take_frame w.coming w;
}

source_laws : SourceLaws line source
source_laws = record {
  content = three_bytes;
  position = λ w. w.at;
  log = λ w. w.gone;
  size_law = λ w n e. sym_ok n e;
  open_law = λ w. (refl, λ e. refl);
  blocks_law = λ w. (refl, λ blocks e. ap file_of (sym (of_ok blocks e)));
  read_law = λ n w. (refl, λ e. (refl, refl));
  seek_law = λ w. (refl, λ e. refl);
  send_law = λ f w. (refl, λ e. refl);
  receive_law = λ w. kept w.coming w;
}
  where
    sym_ok : (n : ℕ) → ◌≡◌ {A = Outcome ℕ ℕ} (ok 3) (ok n) → n ≡ 3
    sym_ok n e = cc e

    of_ok :
        (blocks : List (List ℕ))
        → ◌≡◌ {A = Outcome ℕ (List (List ℕ))} (ok (three_bytes ∷ [])) (ok blocks)
        → three_bytes ∷ [] ≡ blocks
    of_ok blocks e = cc e

    kept :
        (fs : List Frame) (w : Sender)
        → ((take_frame fs w).1.at ≡ w.at) × ((take_frame fs w).1.gone ≡ w.gone)
    kept [] w = (refl, refl)
    kept (f ∷ fs) w = (refl, refl)

abbrev send_limits : TransferLimits
send_limits = record {
  max_file_size = 100;
  chunk_size = 2;
  max_partial_files = 4;
  max_partial_bytes = 50;
}

abbrev at_first : Sender
at_first = record {
  at = 0;
  gone = [];
  coming =
      make_frame transfer_ready 5 5
        (encode_transfer_ready (record { offset = 0; prefix_checksum = 0 }))
      ∷ make_frame acknowledgment 5 5 (encode_offset 2)
      ∷ make_frame acknowledgment 5 5 (encode_offset 3)
      ∷ make_frame transfer_result 5 5 (encode_transfer_result TransferResultCode.success)
      ∷ [];
}

upload_done : transfer_ok (send_file line source send_limits (b'a' ∷ []) 5 at_first).0.status ≡ true
unfolding send_file run_upload check_upload read_source_metadata check_source_size send_or_fail
    await_ready check_ready check_checkpoint upload choose_offset rewind_unless read_prefix
    send_chunks send_chunk check_acknowledgment conclude_upload valid_limits make_frame
    decode_remote_result receive_expected_frame check_expected_frame is_safe_remote_path
    has_forbidden find is_bad_component components_loop bytes_eq type_eq type_code
    encode_transfer_ready encode_offset encode_transfer_result decode_transfer_ready decode_offset
    decode_transfer_result known_result_code result_code get_u8 get_u32 get_u64 be_loop append_u32
    append_u64 update value update_all
upload_done = refl

send_file-Uploaded_example :
    Uploaded line source source_laws send_limits
      (b'a' ∷ [])
      5
      at_first
      (send_file line source send_limits (b'a' ∷ []) 5 at_first).0
      (send_file line source send_limits (b'a' ∷ []) 5 at_first).1
send_file-Uploaded_example =
    send_file-Uploaded line source source_laws send_limits (b'a' ∷ []) 5 at_first upload_done
