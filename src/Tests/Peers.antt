-- ===== src/Tests/Peers.antt =====
-- A ping, and both sides of an authentication, on a link whose peer's frames are written out.
use syncwire.Common.{
  ◌<◌, ◌^◌, ℕ, ◌≡◌, ◌↔◌, refl, sym, ap, List, [], ◌∷◌, ◌++◌, none, some, arith, take, replicate,
  Outcome, ok, err, bytes_eq, bytes_eq→eq, bytes_eq_self, if◌then◌else◌, Bool-cases, inl, inr,
}
use mathlib.Core.Option.{some-injective}
use syncwire.Protocol.{pong, new_header, Frame, auth_challenge, auth_proof, auth_result, type_eq}
use syncwire.FrameIo.{FrameIoResult, FrameIoStatus}
use syncwire.Link.{Link}
use syncwire.PingPong.{
  PingPongStatus, frame_io_default, exchange_frame, perform_ping, validate_common,
}
use syncwire.PingPong.Exchange.{Answered, IsExchange, validate_common_iff, perform_ping_iff}
use syncwire.Authentication.{AuthenticationStatus, client_proof_domain, server_proof_domain}
use syncwire.Authentication.Proof.{Crypto, CryptoLaws}
use syncwire.Authentication.Server.{authenticate_server}
use syncwire.Authentication.Server.Sound.{Admitted, authenticate_server-Admitted}
use syncwire.Authentication.Client.{authenticate_client}
use syncwire.Authentication.Client.Sound.{Trusts, authenticate_client-Trusts}
use syncwire.Crc32.{crc32}
use syncwire.Crc32.Bits.{bits}
use syncwire.Crc32.Division.{crc_bits}
use syncwire.Crc32.Remainder.{crc32-crc_bits}

abbrev no_more : FrameIoResult
no_more = record {
  status = FrameIoStatus.peer_closed;
  transferred = 0;
  system_error = 0;
  codec_error = none;
}

abbrev next_of : List Frame → Outcome FrameIoResult Frame × List Frame
next_of [] = (err no_more, [])
next_of (f ∷ fs) = (ok f, fs)

-- The frames of the peer that are still to come; every send succeeds.
abbrev scripted : Link
scripted = record { World = List Frame; send = λ f w. (frame_io_default, w); receive = next_of }

validate_common_iff_example :
    (validate_common (exchange_frame pong 7) pong ≡ PingPongStatus.success)
    ↔ IsExchange pong (exchange_frame pong 7)
validate_common_iff_example = validate_common_iff (exchange_frame pong 7) pong

perform_ping_iff_example :
    ((perform_ping scripted 7 (exchange_frame pong 7 ∷ [])).0.status ≡ PingPongStatus.success)
    ↔ Answered scripted 7 (exchange_frame pong 7 ∷ [])
perform_ping_iff_example = perform_ping_iff scripted 7 (exchange_frame pong 7 ∷ [])

-- Keys and messages of 32 bytes in front, in place of a code that cannot be guessed.
abbrev plain_code : List ℕ → List ℕ → List ℕ
plain_code key message = take 32 (key ++ (message ++ replicate 32 0))

abbrev pub plain_crypto : (W : Type 0) → Crypto W
plain_crypto W = record {
  Mac = Unit {0};
  Context = List ℕ × List ℕ;
  rand_bytes = λ n w. (some (replicate n 7), w);
  mac_fetch = λ w. (some tt, w);
  context_new = λ mac w. (some ([], []), w);
  mac_init = λ x secret w. (some (secret, []), w);
  mac_update = λ x bytes w. (some (x.0, x.1 ++ bytes), w);
  mac_final = λ x size w. (some (plain_code x.0 x.1), w);
  memcmp = λ xs ys n. if bytes_eq xs ys then 0 else 1;
}

compared : (W : Type 0) (xs ys : List ℕ) (n : ℕ) → ((plain_crypto W).memcmp xs ys n ≡ 0) ↔ (xs ≡ ys)
compared W xs ys n = elim (Bool-cases (bytes_eq xs ys)) [
  | inl same ↦ rw same (λ e. bytes_eq→eq xs ys same, λ e. refl)
  | inr other ↦ rw other (λ e. absurd (omega arith), λ e. cc (rw e at other, bytes_eq_self ys))
]

pub plain_laws : (W : Type 0) → CryptoLaws (plain_crypto W)
plain_laws W = record {
  mac = plain_code;
  key = λ x. x.0;
  message = λ x. x.1;
  init_law = λ x y secret w e. (
    ap (λ (z : List ℕ × List ℕ). z.0) (sym (some-injective _ _ e)),
    ap (λ (z : List ℕ × List ℕ). z.1) (sym (some-injective _ _ e)),
  );
  update_law = λ x y bytes w e. (
    ap (λ (z : List ℕ × List ℕ). z.0) (sym (some-injective _ _ e)),
    ap (λ (z : List ℕ × List ℕ). z.1) (sym (some-injective _ _ e)),
  );
  final_law = λ x size bytes w e. sym (some-injective _ _ e);
  memcmp_law = λ xs ys n h k. compared W xs ys n;
}

abbrev pub secret : List ℕ
secret = replicate 16 65

abbrev pub proof_frame : Frame
proof_frame = record {
  header = new_header auth_proof 64 0 0;
  payload =
      replicate 32 9
      ++ plain_code secret (client_proof_domain ++ (replicate 32 7 ++ replicate 32 9));
}

server_accepts :
    (authenticate_server scripted (plain_crypto (List Frame)) secret (proof_frame ∷ [])).0.status
    ≡ AuthenticationStatus.success
unfolding authenticate_server type_eq bytes_eq
server_accepts = refl

authenticate_server-Admitted_example :
    Admitted scripted
      (plain_crypto (List Frame))
      (plain_laws (List Frame))
      secret
      (proof_frame ∷ [])
authenticate_server-Admitted_example =
    authenticate_server-Admitted scripted (plain_crypto (List Frame)) (plain_laws (List Frame))
      secret (proof_frame ∷ []) server_accepts

abbrev challenge_frame : Frame
challenge_frame = record { header = new_header auth_challenge 32 0 0; payload = replicate 32 9 }

abbrev result_frame : Frame
result_frame = record {
  header = new_header auth_result 33 0 0;
  payload =
      0
      ∷ plain_code secret (
          server_proof_domain
          ++ (replicate 32 9
              ++ (replicate 32 7
                  ++ plain_code secret
                      (client_proof_domain ++ (replicate 32 9 ++ replicate 32 7)))));
}

client_accepts :
    (authenticate_client scripted
      (plain_crypto (List Frame))
      secret
      (challenge_frame ∷ result_frame ∷ [])).0.status
    ≡ AuthenticationStatus.success
unfolding authenticate_client type_eq bytes_eq
client_accepts = refl

authenticate_client-Trusts_example :
    Trusts scripted
      (plain_crypto (List Frame))
      (plain_laws (List Frame))
      secret
      (challenge_frame ∷ result_frame ∷ [])
authenticate_client-Trusts_example =
    authenticate_client-Trusts scripted (plain_crypto (List Frame)) (plain_laws (List Frame)) secret
      (challenge_frame ∷ result_frame ∷ []) client_accepts

crc32-crc_bits_example :
    (crc32 (49 ∷ 50 ∷ []) < 2 ^ 32) × (bits 32 (crc32 (49 ∷ 50 ∷ [])) ≡ crc_bits (49 ∷ 50 ∷ []))
crc32-crc_bits_example = crc32-crc_bits (49 ∷ 50 ∷ []) (omega arith, (omega arith, tt))

-- The check value of CRC-32, of the digits 1 to 9.
check_value : crc32 (49 ∷ 50 ∷ 51 ∷ 52 ∷ 53 ∷ 54 ∷ 55 ∷ 56 ∷ 57 ∷ []) ≡ 0xCBF43926
unfolding crc32
check_value = refl
