-- ===== src/Authentication/Client.antt =====
-- authenticate_client of src/common/authentication.cpp.
pub mod Sound
use syncwire.Common.{
  ℕ, suc, ◌+◌, ◌≡◌, Bool, true, false, List, [], ◌∷◌, ◌++◌, Option, none, some, not, ◌&&◌, ◌||◌,
  ◌==◌, if◌then◌else◌, length, Outcome, ok, err,
}
use syncwire.Protocol.{Frame, auth_challenge, auth_proof, auth_result, type_eq}
use syncwire.FrameIo.{FrameIoResult, frame_io_ok}
use syncwire.Link.{Link}
use syncwire.Authentication.{
  nonce_size, proof_size, client_proof_domain, server_proof_domain, authentication_accepted,
  authentication_rejected, AuthenticationStatus, AuthenticationResult, result_with, frame_error,
  is_auth_frame, make_auth_frame, is_valid_authentication_secret,
}
use syncwire.Authentication.Proof.{Crypto, calculate_proof}

module _ (l : Link) (c : Crypto l.World) where
  open l use {World, send, receive}

  unfoldable pub check_server_proof :
      List ℕ → List ℕ → List ℕ → List ℕ → List ℕ → World → AuthenticationResult × World
  unfolding calculate_proof
  check_server_proof secret server_nonce client_nonce client_proof server_proof w =
      let expected =
        calculate_proof c secret server_proof_domain server_nonce client_nonce client_proof w in
      elim expected.0 [
        | none ↦ (result_with AuthenticationStatus.crypto_error, expected.1)
        | some proof ↦
            if c.memcmp proof server_proof proof_size == 0
            then (result_with AuthenticationStatus.success, expected.1)
            else (result_with AuthenticationStatus.invalid_server_proof, expected.1)
      ]

  -- The answer's payload, by its first byte.
  unfoldable pub read_result :
      List ℕ → List ℕ → List ℕ → List ℕ → List ℕ → World → AuthenticationResult × World
  unfolding check_server_proof
  read_result secret server_nonce client_nonce client_proof [] w =
      (result_with AuthenticationStatus.invalid_result, w)
  read_result secret server_nonce client_nonce client_proof (front ∷ rest) w =
      if front == authentication_rejected
      then if not (suc (length rest) == 1)
        then (result_with AuthenticationStatus.invalid_result, w)
        else (result_with AuthenticationStatus.rejected, w)
      else if not (front == authentication_accepted) || not (suc (length rest) == 1 + proof_size)
      then (result_with AuthenticationStatus.invalid_result, w)
      else check_server_proof secret server_nonce client_nonce client_proof rest w

  unfoldable pub check_result :
      List ℕ → List ℕ → List ℕ → List ℕ → Frame → World → AuthenticationResult × World
  unfolding read_result
  check_result secret server_nonce client_nonce client_proof frame w =
      if not (type_eq frame.header.message_type auth_result)
        || (not (frame.header.request_id == 0) || not (frame.header.transfer_id == 0))
      then (result_with AuthenticationStatus.invalid_result, w)
      else read_result secret server_nonce client_nonce client_proof frame.payload w

  unfoldable pub await_result :
      List ℕ → List ℕ → List ℕ → List ℕ → World → AuthenticationResult × World
  unfolding check_result frame_error
  await_result secret server_nonce client_nonce client_proof w =
      let received = receive w in
      elim received.0 [
        | err e ↦ (frame_error e, received.1)
        | ok frame ↦ check_result secret server_nonce client_nonce client_proof frame received.1
      ]

  unfoldable pub send_proof :
      List ℕ → List ℕ → List ℕ → List ℕ → World → AuthenticationResult × World
  unfolding await_result frame_error make_auth_frame
  send_proof secret server_nonce client_nonce client_proof w =
      let sent = send (make_auth_frame auth_proof (client_nonce ++ client_proof)) w in
      if not (frame_io_ok sent.0.status)
      then (frame_error sent.0, sent.1)
      else await_result secret server_nonce client_nonce client_proof sent.1

  unfoldable pub make_proof : List ℕ → List ℕ → List ℕ → World → AuthenticationResult × World
  unfolding send_proof calculate_proof
  make_proof secret server_nonce client_nonce w =
      let proof = calculate_proof c secret client_proof_domain server_nonce client_nonce [] w in
      elim proof.0 [
        | none ↦ (result_with AuthenticationStatus.crypto_error, proof.1)
        | some client_proof ↦ send_proof secret server_nonce client_nonce client_proof proof.1
      ]

  unfoldable pub accept_challenge : List ℕ → Frame → World → AuthenticationResult × World
  unfolding make_proof is_auth_frame
  accept_challenge secret frame w =
      let nonce = c.rand_bytes nonce_size w in
      if not (is_auth_frame frame auth_challenge nonce_size)
      then (result_with AuthenticationStatus.invalid_challenge, w)
      else elim nonce.0 [
        | none ↦ (result_with AuthenticationStatus.random_generation_error, nonce.1)
        | some client_nonce ↦ make_proof secret frame.payload client_nonce nonce.1
      ]

  unfoldable pub authenticate_client : List ℕ → World → AuthenticationResult × World
  unfolding accept_challenge frame_error is_valid_authentication_secret
  authenticate_client secret w =
      let received = receive w in
      if not (is_valid_authentication_secret secret)
      then (result_with AuthenticationStatus.invalid_secret, w)
      else elim received.0 [
        | err e ↦ (frame_error e, received.1)
        | ok frame ↦ accept_challenge secret frame received.1
      ]
