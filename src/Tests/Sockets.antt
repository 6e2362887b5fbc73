-- ===== src/Tests/Sockets.antt =====
-- For src/common/socket_io.cpp and frame_io.cpp: a socket that moves one byte at a call, after the signals that it starts with.
use syncwire.Common.{ℕ, zero, suc, ◌≡◌, ◌⊎◌, refl, List, [], ◌∷◌, ◌++◌, arith, All, ok, err}
use syncwire.Wire.{IsByte, get_u16, get_u32, get_u64}
use syncwire.Protocol.{ping, new_header, Frame, type_code, known_message_type}
use syncwire.Codec.{encode_header, decode_header}
use syncwire.SocketIo.{
  Sent, sent_some, sent_zero, sent_interrupted, Received, got_some, got_zero, got_interrupted,
  Socket, SentWell, ReceivedWell, SocketLaws, recv_loop,
}
use syncwire.SocketIo.Sending.{send_all, SentAll, send_all-SentAll}
use syncwire.SocketIo.Receiving.{recv_exact, ReceivedAll, recv_exact-ReceivedAll}
use syncwire.FrameIo.{FrameIoResult, send_frame, receive_frame, receive_payload}
use syncwire.FrameIo.Laws.{SentFrame, send_frame-SentFrame, frame_bytes}
use syncwire.FrameIo.Receive.{Interrupted, receive_frame-frame_bytes, receive_frame-IsFrame}
use syncwire.Parser.Stream.{IsFrame}

abbrev Wires : Type 0
Wires = List ℕ × List ℕ × ℕ

abbrev slow_send : List ℕ → Wires → Sent × Wires
slow_send bytes (out, inbox, suc k) = (sent_interrupted, (out, inbox, k))
slow_send [] (out, inbox, zero) = (sent_zero, (out, inbox, zero))
slow_send (b ∷ bs) (out, inbox, zero) = (sent_some 1, (out ++ (b ∷ []), inbox, zero))

abbrev slow_recv : ℕ → Wires → Received × Wires
slow_recv n (out, inbox, suc k) = (got_interrupted, (out, inbox, k))
slow_recv zero (out, inbox, zero) = (got_zero, (out, inbox, zero))
slow_recv (suc n) (out, [], zero) = (got_zero, (out, [], zero))
slow_recv (suc n) (out, b ∷ bs, zero) = (got_some (b ∷ []), (out, bs, zero))

abbrev pub slow_socket : Socket
slow_socket = record { World = Wires; send = slow_send; recv = slow_recv }

slow_send_law :
    (bytes : List ℕ) (w : Wires)
    → SentWell bytes (slow_send bytes w).0 w.0 (slow_send bytes w).1.0 w.2 (slow_send bytes w).1.2
slow_send_law bytes (out, inbox, suc k) = (refl, omega arith)
slow_send_law [] (out, inbox, zero) = (refl, omega arith)
slow_send_law (b ∷ bs) (out, inbox, zero) = (omega arith, omega arith, refl, omega arith)

slow_send_inbox : (bytes : List ℕ) (w : Wires) → (slow_send bytes w).1.1 ≡ w.1
slow_send_inbox bytes (out, inbox, suc k) = refl
slow_send_inbox [] (out, inbox, zero) = refl
slow_send_inbox (b ∷ bs) (out, inbox, zero) = refl

slow_recv_law :
    (n : ℕ) (w : Wires)
    → ReceivedWell n (slow_recv n w).0 w.1 (slow_recv n w).1.1 w.2 (slow_recv n w).1.2
slow_recv_law n (out, inbox, suc k) = (refl, omega arith)
slow_recv_law zero (out, inbox, zero) = (refl, omega arith)
slow_recv_law (suc n) (out, [], zero) = (refl, omega arith)
slow_recv_law (suc n) (out, b ∷ bs, zero) = (omega arith, omega arith, refl, omega arith)

slow_recv_wire : (n : ℕ) (w : Wires) → (slow_recv n w).1.0 ≡ w.0
slow_recv_wire n (out, inbox, suc k) = refl
slow_recv_wire zero (out, inbox, zero) = refl
slow_recv_wire (suc n) (out, [], zero) = refl
slow_recv_wire (suc n) (out, b ∷ bs, zero) = refl

abbrev slow_laws : SocketLaws slow_socket
slow_laws = record {
  wire = λ w. w.0;
  inbox = λ w. w.1;
  signals = λ w. w.2;
  send_law = slow_send_law;
  send_inbox = slow_send_inbox;
  recv_law = slow_recv_law;
  recv_wire = slow_recv_wire;
}

abbrev some_wires : Wires
some_wires = (5 ∷ [], 1 ∷ 2 ∷ 3 ∷ 4 ∷ [], 2)

send_all-SentAll_example :
    SentAll slow_socket slow_laws
      (6 ∷ 7 ∷ [])
      some_wires
      (send_all slow_socket slow_laws (6 ∷ 7 ∷ []) some_wires).0
      (send_all slow_socket slow_laws (6 ∷ 7 ∷ []) some_wires).1
send_all-SentAll_example = send_all-SentAll slow_socket slow_laws (6 ∷ 7 ∷ []) some_wires

recv_exact-ReceivedAll_example :
    ReceivedAll slow_socket slow_laws 3 some_wires
      (recv_exact slow_socket slow_laws 3 some_wires).0
      (recv_exact slow_socket slow_laws 3 some_wires).1
      (recv_exact slow_socket slow_laws 3 some_wires).2
recv_exact-ReceivedAll_example = recv_exact-ReceivedAll slow_socket slow_laws 3 some_wires

abbrev ping_frame : Frame
ping_frame = record { header = new_header ping 0 7 0; payload = [] }

ping-IsFrame : IsFrame 8 ping_frame
ping-IsFrame = (
  record {
    magic_ok = refl;
    version_ok = refl;
    size_ok = refl;
    length_ok = omega arith;
    length_fits = omega arith;
    flags_ok = refl;
    request_fits = omega arith;
    transfer_fits = omega arith;
  },
  refl,
)

send_frame-SentFrame_example :
    SentFrame slow_socket slow_laws ping_frame some_wires
      (send_frame slow_socket slow_laws ping_frame some_wires).0
      (send_frame slow_socket slow_laws ping_frame some_wires).1
send_frame-SentFrame_example = send_frame-SentFrame slow_socket slow_laws ping_frame some_wires

abbrev ping_bytes : List ℕ
ping_bytes =
    83 ∷ 87 ∷ 73 ∷ 82 ∷ 2 ∷ 1 ∷ 0 ∷ 32 ∷ 0 ∷ 0 ∷ 0 ∷ 0 ∷ 0 ∷ 0 ∷ 0 ∷ 0 ∷ 0 ∷ 0 ∷ 0 ∷ 0 ∷ 0 ∷ 0 ∷ 0
    ∷ 7 ∷ 0 ∷ 0 ∷ 0 ∷ 0 ∷ 0 ∷ 0 ∷ 0 ∷ 0 ∷ []

abbrev ping_wires : Wires
ping_wires = ([], ping_bytes ++ (9 ∷ []), 1)

ping_stream : ping_bytes ++ (9 ∷ []) ≡ frame_bytes ping_frame ++ (9 ∷ [])
unfolding encode_header type_code
ping_stream = refl

receive_frame-frame_bytes_example :
    ((receive_frame slow_socket slow_laws 8 ping_wires).0 ≡ ok ping_frame)
      × ((receive_frame slow_socket slow_laws 8 ping_wires).1.1 ≡ 9 ∷ [])
    ⊎ ((r : FrameIoResult) × ((receive_frame slow_socket slow_laws 8 ping_wires).0 ≡ err r)
        × Interrupted r)
receive_frame-frame_bytes_example =
    receive_frame-frame_bytes slow_socket slow_laws 8 ping_frame (9 ∷ []) ping_wires ping-IsFrame
      ping_stream

ping_wires-IsByte : All IsByte (ping_bytes ++ (9 ∷ []))
ping_wires-IsByte = (
  omega arith,
  (
    omega arith,
    (
      omega arith,
      (
        omega arith,
        (
          omega arith,
          (
            omega arith,
            (
              omega arith,
              (
                omega arith,
                (
                  omega arith,
                  (
                    omega arith,
                    (
                      omega arith,
                      (
                        omega arith,
                        (
                          omega arith,
                          (
                            omega arith,
                            (
                              omega arith,
                              (
                                omega arith,
                                (
                                  omega arith,
                                  (
                                    omega arith,
                                    (
                                      omega arith,
                                      (
                                        omega arith,
                                        (
                                          omega arith,
                                          (
                                            omega arith,
                                            (
                                              omega arith,
                                              (
                                                omega arith,
                                                (
                                                  omega arith,
                                                  (
                                                    omega arith,
                                                    (
                                                      omega arith,
                                                      (
                                                        omega arith,
                                                        (
                                                          omega arith,
                                                          (
                                                            omega arith,
                                                            (
                                                            omega arith,
                                                            (omega arith, (omega arith, tt)),
                                                            ),
                                                          ),
                                                        ),
                                                      ),
                                                    ),
                                                  ),
                                                ),
                                              ),
                                            ),
                                          ),
                                        ),
                                      ),
                                    ),
                                  ),
                                ),
                              ),
                            ),
                          ),
                        ),
                      ),
                    ),
                  ),
                ),
              ),
            ),
          ),
        ),
      ),
    ),
  ),
)

ping_received : (receive_frame slow_socket slow_laws 8 ping_wires).0 ≡ ok ping_frame
unfolding receive_frame recv_exact recv_loop decode_header receive_payload get_u16 get_u32 get_u64
    known_message_type
ping_received = refl

receive_frame-IsFrame_example :
    (ping_bytes ++ (9 ∷ [])
      ≡ frame_bytes ping_frame ++ (receive_frame slow_socket slow_laws 8 ping_wires).1.1)
    × IsFrame 8 ping_frame
receive_frame-IsFrame_example =
    receive_frame-IsFrame slow_socket slow_laws 8 ping_frame ping_wires ping_wires-IsByte
      ping_received
