-- ===== src/Authentication/Server/Sound.antt =====
-- What a success of authenticate_server (src/common/authentication.cpp) rests on.
use syncwire.Common.{
  ℕ, ◌+◌, ◌≡◌, refl, ap, sym, ◌∙◌, Bool, true, false, List, [], ◌++◌, some, ◌==◌, length, take,
  drop, length-drop, ok, arith, Bool-cases, Option-cases, Outcome-cases, inl, inr, ==_iff,
}
use mathlib.Core.List.{append-nil}
use syncwire.Protocol.{Frame, auth_challenge, auth_proof}
use syncwire.FrameIo.{frame_io_ok}
use syncwire.Link.{Link}
use syncwire.Authentication.{
  nonce_size, proof_size, client_proof_domain, AuthenticationStatus, frame_error, is_auth_frame,
  make_auth_frame, is_valid_authentication_secret,
}
use syncwire.Authentication.Proof.{Crypto, CryptoLaws, calculate_proof, calculate_proof-mac}
use syncwire.Authentication.Server.{
  send_auth_result, refuse, conclude, answer, verify_proof, check_proof, await_proof, challenge,
  authenticate_server,
}

is_auth_frame-length :
    (f : Frame) (n : ℕ) → is_auth_frame f auth_proof n ≡ true → length f.payload ≡ n
unfolding is_auth_frame
is_auth_frame-length f n h = ground arith

module _ (l : Link) (c : Crypto l.World) (laws : CryptoLaws c) where
  open l use {World, send, receive}

  -- A proof frame that shows the secret: behind the client's nonce it carries the code, under the
  -- secret, of the client's domain, the server's nonce and the client's.
  pub record Proves (secret server_nonce : List ℕ) (f : Frame) : Type 0 where
    pub well_formed : is_auth_frame f auth_proof (nonce_size + proof_size) ≡ true
    pub code :
        drop nonce_size f.payload
        ≡ laws.mac secret (client_proof_domain ++ (server_nonce ++ take nonce_size f.payload))

  answer-accepted :
      (secret sn cn proof : List ℕ) (good : Bool) (w : World)
      → (answer l c secret sn cn proof good w).0.status ≡ AuthenticationStatus.success
      → good ≡ true
  unfolding answer conclude frame_error
  answer-accepted secret sn cn proof true w h = refl
  answer-accepted secret sn cn proof false w h =
      elim (Bool-cases (frame_io_ok (send_auth_result l c false [] w).0.status)) [
        | inl sent ↦ cc (rw (conclude, sent) at h)
        | inr bad ↦ cc (rw (conclude, bad) at h)
      ]

  verify_proof-code :
      (secret sn cn proof : List ℕ) (w : World)
      → length proof ≡ proof_size
      → (verify_proof l c secret sn cn proof w).0.status ≡ AuthenticationStatus.success
      → proof ≡ laws.mac secret (client_proof_domain ++ (sn ++ cn))
  unfolding verify_proof
  verify_proof-code secret sn cn proof w size h =
      elim (Option-cases (calculate_proof c secret client_proof_domain sn cn [] w).0) [
        | inl bad ↦ cc (rw (verify_proof, bad) at h)
        | inr (expected, e) ↦
            let (code, long) =
              calculate_proof-mac c laws secret client_proof_domain sn cn [] expected w e in
            let equal =
              answer-accepted secret sn cn proof (c.memcmp expected proof proof_size == 0) _
                (rw (verify_proof, e) at h) in
            sym ((laws.memcmp_law expected proof proof_size long size).0 ((==_iff _ 0).0 equal))
            ∙ code
            ∙ ap (λ (x : List ℕ). laws.mac secret (client_proof_domain ++ (sn ++ x)))
                (append-nil cn)
      ]

  check_proof-Proves :
      (secret sn : List ℕ) (f : Frame) (w : World)
      → (check_proof l c secret sn f w).0.status ≡ AuthenticationStatus.success
      → Proves secret sn f
  unfolding check_proof refuse frame_error
  check_proof-Proves secret sn f w h =
      elim (Bool-cases (is_auth_frame f auth_proof (nonce_size + proof_size))) [
        | inr bad ↦ elim (Bool-cases (frame_io_ok (send_auth_result l c false [] w).0.status)) [
          | inl sent ↦ cc (rw (bad, refuse, sent) at h)
          | inr failed ↦ cc (rw (bad, refuse, failed) at h)
        ]
        | inl good ↦ record {
          well_formed = good;
          code =
              verify_proof-code secret sn (take nonce_size f.payload) (drop nonce_size f.payload) w
                (omega (arith, length-drop 32 f.payload, is_auth_frame-length f 64 good))
                (rw good at h);
        }
      ]

  -- The server's side of a success.
  pub record Admitted (secret : List ℕ) (w : World) : Type 0 where
    pub secret_ok : is_valid_authentication_secret secret ≡ true
    pub server_nonce : List ℕ
    pub drawn : (c.rand_bytes nonce_size w).0 ≡ some server_nonce
    pub proof_frame : Frame
    pub received :
        (receive
          (send (make_auth_frame auth_challenge server_nonce) (c.rand_bytes nonce_size w).1).1).0
        ≡ ok proof_frame
    pub proves : Proves secret server_nonce proof_frame

  challenge-Proves :
      (secret sn : List ℕ) (w : World)
      → (challenge l c secret sn w).0.status ≡ AuthenticationStatus.success
      → (f : Frame) × ((receive (send (make_auth_frame auth_challenge sn) w).1).0 ≡ ok f)
        × Proves secret sn f
  unfolding challenge await_proof frame_error
  challenge-Proves secret sn w h =
      elim (Bool-cases (frame_io_ok (send (make_auth_frame auth_challenge sn) w).0.status)) [
        | inr bad ↦ cc (rw bad at h)
        | inl sent ↦
            elim (Outcome-cases (receive (send (make_auth_frame auth_challenge sn) w).1).0) [
              | inr (e, bad) ↦ cc (rw (sent, await_proof, bad) at h)
              | inl (f, got) ↦
                  (f, got, check_proof-Proves secret sn f _ (rw (sent, await_proof, got) at h))
            ]
      ]

  -- With OpenSSL as documented: when authenticate_server succeeds, the frame that came back on its
  -- challenge carries the code, under the server's secret, of the client's domain, this challenge's
  -- nonce and the client's nonce.
  pub authenticate_server-Admitted :
      (secret : List ℕ) (w : World)
      → (authenticate_server l c secret w).0.status ≡ AuthenticationStatus.success
      → Admitted secret w
  unfolding authenticate_server
  authenticate_server-Admitted secret w h =
      elim (Bool-cases (is_valid_authentication_secret secret)) [
        | inr bad ↦ cc (rw bad at h)
        | inl valid ↦ elim (Option-cases (c.rand_bytes nonce_size w).0) [
          | inl bad ↦ cc (rw (valid, bad) at h)
          | inr (sn, drawn) ↦
              let (f, got, proves) = challenge-Proves secret sn _ (rw (valid, drawn) at h) in
              record {
                secret_ok = valid;
                server_nonce = sn;
                drawn = drawn;
                proof_frame = f;
                received = got;
                proves = proves;
              }
        ]
      ]
