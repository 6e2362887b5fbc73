-- ===== src/Authentication/Server.antt =====
-- authenticate_server of src/common/authentication.cpp.
pub mod Sound
use syncwire.Common.{
  ℕ, ◌+◌, ◌≡◌, Bool, true, false, List, [], ◌∷◌, ◌++◌, Option, none, some, not, ◌==◌, if◌then◌else◌,
  take, drop, Outcome, ok, err,
}
use syncwire.Protocol.{Frame, auth_challenge, auth_proof, auth_result}
use syncwire.FrameIo.{FrameIoResult, frame_io_ok}
use syncwire.Link.{Link}
use syncwire.Authentication.{
  nonce_size, proof_size, client_proof_domain, server_proof_domain, authentication_accepted,
  authentication_rejected, AuthenticationStatus, AuthenticationResult, result_with, frame_error,
  is_auth_frame, make_auth_frame, is_valid_authentication_secret,
}
use syncwire.Authentication.Proof.{Crypto, calculate_proof}

module _ (l : Link) (c : Crypto l.World) where
  open l use {World, send, receive}

  unfoldable pub send_auth_result : Bool → List ℕ → World → FrameIoResult × World
  unfolding make_auth_frame
  send_auth_result accepted server_proof w =
      let code = if accepted then authentication_accepted else authentication_rejected in
      send (make_auth_frame auth_result (code ∷ server_proof)) w

  -- The branch of a malformed proof.
  unfoldable pub refuse : World → AuthenticationResult × World
  unfolding send_auth_result frame_error
  refuse w =
      let sent = send_auth_result false [] w in
      if not (frame_io_ok sent.0.status)
      then (frame_error sent.0, sent.1)
      else (result_with AuthenticationStatus.invalid_proof, sent.1)

  unfoldable pub conclude : Bool → List ℕ → World → AuthenticationResult × World
  unfolding send_auth_result frame_error
  conclude accepted server_proof w =
      let sent = send_auth_result accepted server_proof w in
      if not (frame_io_ok sent.0.status)
      then (frame_error sent.0, sent.1)
      else if accepted
      then (result_with AuthenticationStatus.success, sent.1)
      else (result_with AuthenticationStatus.rejected, sent.1)

  -- The server's own proof, made for an accepted client only.
  unfoldable pub answer :
      List ℕ → List ℕ → List ℕ → List ℕ → Bool → World → AuthenticationResult × World
  unfolding conclude calculate_proof
  answer secret server_nonce client_nonce client_proof false w = conclude false [] w
  answer secret server_nonce client_nonce client_proof true w =
      let proof =
        calculate_proof c secret server_proof_domain server_nonce client_nonce client_proof w in
      elim proof.0 [
        | none ↦ (result_with AuthenticationStatus.crypto_error, proof.1)
        | some server_proof ↦ conclude true server_proof proof.1
      ]

  unfoldable pub verify_proof :
      List ℕ → List ℕ → List ℕ → List ℕ → World → AuthenticationResult × World
  unfolding answer calculate_proof
  verify_proof secret server_nonce client_nonce client_proof w =
      let expected = calculate_proof c secret client_proof_domain server_nonce client_nonce [] w in
      elim expected.0 [
        | none ↦ (result_with AuthenticationStatus.crypto_error, expected.1)
        | some proof ↦
            answer secret server_nonce client_nonce client_proof
              (c.memcmp proof client_proof proof_size == 0) expected.1
      ]

  unfoldable pub check_proof : List ℕ → List ℕ → Frame → World → AuthenticationResult × World
  unfolding verify_proof refuse is_auth_frame
  check_proof secret server_nonce frame w =
      if not (is_auth_frame frame auth_proof (nonce_size + proof_size))
      then refuse w
      else verify_proof secret server_nonce (take nonce_size frame.payload)
          (drop nonce_size frame.payload) w

  unfoldable pub await_proof : List ℕ → List ℕ → World → AuthenticationResult × World
  unfolding check_proof frame_error
  await_proof secret server_nonce w =
      let received = receive w in
      elim received.0 [
        | err e ↦ (frame_error e, received.1)
        | ok frame ↦ check_proof secret server_nonce frame received.1
      ]

  unfoldable pub challenge : List ℕ → List ℕ → World → AuthenticationResult × World
  unfolding await_proof frame_error make_auth_frame
  challenge secret server_nonce w =
      let sent = send (make_auth_frame auth_challenge server_nonce) w in
      if not (frame_io_ok sent.0.status)
      then (frame_error sent.0, sent.1)
      else await_proof secret server_nonce sent.1

  unfoldable pub authenticate_server : List ℕ → World → AuthenticationResult × World
  unfolding challenge is_valid_authentication_secret
  authenticate_server secret w =
      let nonce = c.rand_bytes nonce_size w in
      if not (is_valid_authentication_secret secret)
      then (result_with AuthenticationStatus.invalid_secret, w)
      else elim nonce.0 [
        | none ↦ (result_with AuthenticationStatus.random_generation_error, nonce.1)
        | some server_nonce ↦ challenge secret server_nonce nonce.1
      ]
