-- ===== src/Authentication/Client/Sound.antt =====
-- What a success of authenticate_client (src/common/authentication.cpp) rests on.
use syncwire.Common.{
  ℕ, suc, ◌≡◌, ap, sym, ◌∙◌, true, List, [], ◌∷◌, ◌++◌, Option, some, not, ◌||◌, ◌==◌, length, ok,
  arith, Bool-cases, Option-cases, Outcome-cases, inl, inr, ==_iff,
}
use syncwire.Protocol.{Frame, auth_challenge, auth_proof, auth_result, type_eq, type_eq→eq}
use syncwire.FrameIo.{frame_io_ok}
use syncwire.Link.{Link}
use syncwire.Authentication.{
  nonce_size, proof_size, client_proof_domain, server_proof_domain, authentication_accepted,
  AuthenticationStatus, frame_error, is_auth_frame, make_auth_frame, is_valid_authentication_secret,
}
use syncwire.Authentication.Proof.{Crypto, CryptoLaws, calculate_proof, calculate_proof-mac}
use syncwire.Authentication.Client.{
  check_server_proof, read_result, check_result, await_result, send_proof, make_proof,
  accept_challenge, authenticate_client,
}

module _ (l : Link) (c : Crypto l.World) (laws : CryptoLaws c) where
  open l use {World, send, receive}

  -- The server's proof in a payload that accepts the client.
  abbrev Accepts : List ℕ → List ℕ → List ℕ → List ℕ → List ℕ → Type 0
  Accepts secret sn cn proof payload =
      payload
      ≡ authentication_accepted ∷ laws.mac secret (server_proof_domain ++ (sn ++ (cn ++ proof)))

  -- A challenge: its type, no ids, and the bytes of a nonce.
  abbrev pub IsChallenge : Frame → Type 0
  IsChallenge f =
      (f.header.message_type ≡ auth_challenge)
      × (f.header.request_id ≡ 0)
      × (f.header.transfer_id ≡ 0)
      × (length f.payload ≡ 32)

  is_auth_frame-IsChallenge :
      (f : Frame) → is_auth_frame f auth_challenge nonce_size ≡ true → IsChallenge f
  unfolding is_auth_frame
  is_auth_frame-IsChallenge f h = (
    type_eq→eq f.header.message_type auth_challenge (ground (arith, h)),
    ground (arith, h),
    ground (arith, h),
    ground (arith, h),
  )

  -- A result frame: its type, and no ids.
  abbrev pub IsResult : Frame → Type 0
  IsResult f =
      (f.header.message_type ≡ auth_result) × (f.header.request_id ≡ 0) × (f.header.transfer_id ≡ 0)

  -- A client's success: its own proof of the challenge went out, and the answer carries the code, under
  -- the client's secret, of the server's domain, both nonces and that proof.
  pub record Trusts (secret : List ℕ) (w : World) : Type 0 where
    pub secret_ok : is_valid_authentication_secret secret ≡ true
    pub challenge : Frame
    pub challenged : (receive w).0 ≡ ok challenge
    pub is_challenge : IsChallenge challenge
    pub client_nonce : List ℕ
    pub drawn : (c.rand_bytes nonce_size (receive w).1).0 ≡ some client_nonce
    pub proof : List ℕ
    pub proof_code :
        proof ≡ laws.mac secret (client_proof_domain ++ (challenge.payload ++ (client_nonce ++ [])))
    pub result : Frame
    pub answered :
        (receive
          (send
            (make_auth_frame auth_proof (client_nonce ++ proof))
            (calculate_proof c secret client_proof_domain challenge.payload client_nonce []
              (c.rand_bytes nonce_size (receive w).1).1).1).1).0
        ≡ ok result
    pub is_result : IsResult result
    pub server_code : Accepts secret challenge.payload client_nonce proof result.payload

  check_server_proof-code :
      (secret sn cn proof server_proof : List ℕ) (w : World)
      → length server_proof ≡ proof_size
      → (check_server_proof l c secret sn cn proof server_proof w).0.status
        ≡ AuthenticationStatus.success
      → server_proof ≡ laws.mac secret (server_proof_domain ++ (sn ++ (cn ++ proof)))
  unfolding check_server_proof
  check_server_proof-code secret sn cn proof server_proof w size h =
      elim (Option-cases (calculate_proof c secret server_proof_domain sn cn proof w).0) [
        | inl bad ↦ cc (rw (check_server_proof, bad) at h)
        | inr (expected, e) ↦
            let (code, long) =
              calculate_proof-mac c laws secret server_proof_domain sn cn proof expected w e in
            elim (Bool-cases (c.memcmp expected server_proof proof_size == 0)) [
              | inr bad ↦ cc (rw (check_server_proof, e, bad) at h)
              | inl equal ↦
                  sym (
                    (laws.memcmp_law expected server_proof proof_size long size).0
                      ((==_iff _ 0).0 equal))
                  ∙ code
            ]
      ]

  read_result-Accepts :
      (secret sn cn proof payload : List ℕ) (w : World)
      → (read_result l c secret sn cn proof payload w).0.status ≡ AuthenticationStatus.success
      → Accepts secret sn cn proof payload
  unfolding read_result
  read_result-Accepts secret sn cn proof [] w h = cc h
  read_result-Accepts secret sn cn proof (front ∷ rest) w h = elim (Bool-cases (front == 1)) [
    | inl refused ↦ elim (Bool-cases (suc (length rest) == 1)) [
      | inl one ↦ cc (rw (refused, one) at h)
      | inr more ↦ cc (rw (refused, more) at h)
    ]
    | inr going ↦ elim (Bool-cases (front == 0)) [
      | inr bad ↦ cc (rw (going, bad) at h)
      | inl accepted ↦ elim (Bool-cases (suc (length rest) == 33)) [
        | inr bad ↦ cc (rw (going, accepted, bad) at h)
        | inl size ↦
            ap (λ (x : ℕ). x ∷ rest) ((==_iff front 0).0 accepted)
            ∙ ap (◌∷◌ 0) (
                check_server_proof-code secret sn cn proof rest w
                  (omega (arith, (==_iff (suc (length rest)) 33).0 size))
                  (rw (going, accepted, size) at h))
      ]
    ]
  ]

  check_result-Accepts :
      (secret sn cn proof : List ℕ) (f : Frame) (w : World)
      → (check_result l c secret sn cn proof f w).0.status ≡ AuthenticationStatus.success
      → IsResult f × Accepts secret sn cn proof f.payload
  unfolding check_result
  check_result-Accepts secret sn cn proof f w h =
      elim (Bool-cases (
        not (type_eq f.header.message_type auth_result)
        || (not (f.header.request_id == 0) || not (f.header.transfer_id == 0)))) [
          | inl bad ↦ cc (rw bad at h)
          | inr good ↦ (
            (
              type_eq→eq f.header.message_type auth_result (ground arith),
              ground (arith, good),
              ground (arith, good),
            ),
            read_result-Accepts secret sn cn proof f.payload w (rw good at h),
          )
        ]

  send_proof-Accepts :
      (secret sn cn proof : List ℕ) (w : World)
      → (send_proof l c secret sn cn proof w).0.status ≡ AuthenticationStatus.success
      → (f : Frame) × ((receive (send (make_auth_frame auth_proof (cn ++ proof)) w).1).0 ≡ ok f)
        × IsResult f
        × Accepts secret sn cn proof f.payload
  unfolding send_proof await_result frame_error
  send_proof-Accepts secret sn cn proof w h =
      elim (Bool-cases (frame_io_ok (send (make_auth_frame auth_proof (cn ++ proof)) w).0.status)) [
        | inr bad ↦ cc (rw (send_proof, bad) at h)
        | inl sent ↦
            elim (Outcome-cases (receive (send (make_auth_frame auth_proof (cn ++ proof)) w).1).0) [
              | inr (e, bad) ↦ cc (rw (send_proof, sent, await_result, bad) at h)
              | inl (f, got) ↦
                  let (type, accepts) =
                    check_result-Accepts secret sn cn proof f _
                      (rw (send_proof, sent, await_result, got) at h) in
                  (f, got, type, accepts)
            ]
      ]

  accept_challenge-Trusts :
      (secret : List ℕ) (f : Frame) (w : World)
      → is_valid_authentication_secret secret ≡ true
      → (receive w).0 ≡ ok f
      → (accept_challenge l c secret f (receive w).1).0.status ≡ AuthenticationStatus.success
      → Trusts secret w
  unfolding accept_challenge make_proof
  accept_challenge-Trusts secret f w valid got h =
      elim (Bool-cases (is_auth_frame f auth_challenge nonce_size)) [
        | inr bad ↦ cc (rw (accept_challenge, bad) at h)
        | inl good ↦ elim (Option-cases (c.rand_bytes nonce_size (receive w).1).0) [
          | inl bad ↦ cc (rw (accept_challenge, good, bad) at h)
          | inr (cn, drawn) ↦
              let w2 : World = (c.rand_bytes nonce_size (receive w).1).1 in
              let calculated : Option (List ℕ) × World =
                calculate_proof c secret client_proof_domain f.payload cn [] w2 in
              elim (Option-cases calculated.0) [
                | inl bad ↦ cc (rw (accept_challenge, good, drawn, make_proof, bad) at h)
                | inr (proof, e) ↦
                    let (code, _) =
                      calculate_proof-mac c laws secret client_proof_domain f.payload cn [] proof w2
                        e in
                    let (result, answered, type, accepts) =
                      send_proof-Accepts secret f.payload cn proof _
                        (rw (accept_challenge, good, drawn, make_proof, e) at h) in
                    record {
                      secret_ok = valid;
                      challenge = f;
                      challenged = got;
                      is_challenge = is_auth_frame-IsChallenge f good;
                      client_nonce = cn;
                      drawn = drawn;
                      proof = proof;
                      proof_code = code;
                      result = result;
                      answered = answered;
                      is_result = type;
                      server_code = accepts;
                    }
              ]
        ]
      ]

  -- With OpenSSL as documented: when authenticate_client succeeds, the first frame that it received is
  -- an AuthChallenge without ids and with a nonce of 32 bytes, it has answered it with its proof, and
  -- the frame received next is an AuthResult without ids, which carries the code, under the client's
  -- secret, of the server's domain, the challenge's nonce, its own nonce and its own proof.
  pub authenticate_client-Trusts :
      (secret : List ℕ) (w : World)
      → (authenticate_client l c secret w).0.status ≡ AuthenticationStatus.success
      → Trusts secret w
  unfolding authenticate_client frame_error
  authenticate_client-Trusts secret w h =
      elim (Bool-cases (is_valid_authentication_secret secret)) [
        | inr bad ↦ cc (rw bad at h)
        | inl valid ↦ elim (Outcome-cases (receive w).0) [
          | inr (e, bad) ↦ cc (rw (valid, bad) at h)
          | inl (f, got) ↦ accept_challenge-Trusts secret f w valid got (rw (valid, got) at h)
        ]
      ]
