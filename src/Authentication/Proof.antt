-- ===== src/Authentication/Proof.antt =====
-- calculate_proof of src/common/authentication.cpp, over the OpenSSL calls that it makes.
use syncwire.Common.{
  ℕ, ◌≡◌, ◌↔◌, refl, ap, sym, ◌∙◌, List, [], ◌∷◌, ◌++◌, Option, none, some, ◌==◌, if◌then◌else◌,
  length, Bool-cases, inl, inr, ==_iff,
}
use mathlib.Core.List.{append_assoc, append-nil}
use syncwire.Authentication.{proof_size}

-- The OpenSSL calls, in the state World that their success may depend on; `none` is a null result
-- or a return value other than 1. mac_final hands over the bytes that it produced, for a buffer of
-- the given size.
pub record Crypto (World : Type 0) : Type 1 where
  pub Mac : Type 0
  pub Context : Type 0
  pub rand_bytes : ℕ → World → Option (List ℕ) × World
  pub mac_fetch : World → Option Mac × World
  pub context_new : Mac → World → Option Context × World
  pub mac_init : Context → List ℕ → World → Option Context × World
  pub mac_update : Context → List ℕ → World → Option Context × World
  pub mac_final : Context → ℕ → World → Option (List ℕ) × World
  pub memcmp : List ℕ → List ℕ → ℕ → ℕ

-- What OpenSSL documents of them: a context keeps the key and the message of the updates so far, and
-- ends in their code, `mac key message`; CRYPTO_memcmp answers 0 exactly for equal bytes.
pub record CryptoLaws {World : Type 0} (c : Crypto World) : Type 0 where
  pub mac : List ℕ → List ℕ → List ℕ
  pub key : c.Context → List ℕ
  pub message : c.Context → List ℕ
  pub init_law :
      (x y : c.Context) (secret : List ℕ) (w : World)
      → (c.mac_init x secret w).0 ≡ some y
      → (key y ≡ secret) × (message y ≡ [])
  pub update_law :
      (x y : c.Context) (bytes : List ℕ) (w : World)
      → (c.mac_update x bytes w).0 ≡ some y
      → (key y ≡ key x) × (message y ≡ message x ++ bytes)
  pub final_law :
      (x : c.Context) (size : ℕ) (bytes : List ℕ) (w : World)
      → (c.mac_final x size w).0 ≡ some bytes
      → bytes ≡ mac (key x) (message x)
  pub memcmp_law :
      (xs ys : List ℕ) (n : ℕ) → length xs ≡ n → length ys ≡ n → (c.memcmp xs ys n ≡ 0) ↔ (xs ≡ ys)

-- The early return on a call that failed.
abbrev pub then_try {ℓ ℓ'} :
    {World : Type 0} {A : Type ℓ} {B : Type ℓ'}
    → Option A × World
    → (A → World → Option B × World)
    → Option B × World
then_try (none, w) f = (none, w)
then_try (some a, w) f = f a w

module _ {World : Type 0} (c : Crypto World) where
  unfoldable pub update_binding : c.Context → List ℕ → World → Option c.Context × World
  update_binding context [] w = (some context, w)
  update_binding context (b ∷ bs) w = c.mac_update context (b ∷ bs) w

  unfoldable pub check_size : List ℕ → World → Option (List ℕ) × World
  check_size proof w = if length proof == proof_size then (some proof, w) else (none, w)

  -- calculate_proof, with the proof as the result.
  unfoldable pub calculate_proof :
      List ℕ → List ℕ → List ℕ → List ℕ → List ℕ → World → Option (List ℕ) × World
  unfolding update_binding check_size
  calculate_proof secret domain server_nonce client_nonce binding w =
      then_try (c.mac_fetch w) (λ mac w1. then_try (c.context_new mac w1) (λ context w2.
        then_try (c.mac_init context secret w2) (λ keyed w3.
          then_try (c.mac_update keyed domain w3) (λ c1 w4.
            then_try (c.mac_update c1 server_nonce w4) (λ c2 w5.
              then_try (c.mac_update c2 client_nonce w5) (λ c3 w6.
                then_try (update_binding c3 binding w6)
                  (λ c4 w7. then_try (c.mac_final c4 proof_size w7) check_size)))))))

then_try-some {ℓ ℓ'} :
    {World : Type 0} {A : Type ℓ} {B : Type ℓ'} (o : Option A × World)
    (f : A → World → Option B × World) (b : B)
    → (then_try o f).0 ≡ some b
    → (a : A) × (o.0 ≡ some a) × ((f a o.1).0 ≡ some b)
then_try-some (none, w) f b h = cc h
then_try-some (some a, w) f b h = (a, refl, h)

module _ {World : Type 0} (c : Crypto World) (laws : CryptoLaws c) where
  update_binding_lem :
      (x y : c.Context) (bytes : List ℕ) (w : World)
      → (update_binding c x bytes w).0 ≡ some y
      → (laws.key y ≡ laws.key x) × (laws.message y ≡ laws.message x ++ bytes)
  unfolding update_binding
  update_binding_lem x y [] w h = (cc h, ap laws.message (cc h) ∙ sym (append-nil (laws.message x)))
  update_binding_lem x y (b ∷ bs) w h = laws.update_law x y (b ∷ bs) w h

  check_size_lem :
      (bytes proof : List ℕ) (w : World)
      → (check_size c bytes w).0 ≡ some proof
      → (proof ≡ bytes) × (length proof ≡ proof_size)
  unfolding check_size
  check_size_lem bytes proof w h = elim (Bool-cases (length bytes == proof_size)) [
    | inr bad ↦ cc (rw bad at h)
    | inl good ↦
        let same : proof ≡ bytes = cc (rw good at h) in
        (same, ap length same ∙ (==_iff (length bytes) proof_size).0 good)
  ]

  -- When every call succeeds, the proof is the code under the secret of the domain, the two nonces and
  -- the binding, one behind the other, and it has the size of a proof.
  pub calculate_proof-mac :
      (secret domain server_nonce client_nonce binding proof : List ℕ) (w : World)
      → (calculate_proof c secret domain server_nonce client_nonce binding w).0 ≡ some proof
      → (proof ≡ laws.mac secret (domain ++ (server_nonce ++ (client_nonce ++ binding))))
        × (length proof ≡ proof_size)
  unfolding calculate_proof
  calculate_proof-mac secret domain sn cn binding proof w h =
      let p1 = c.mac_fetch w in
      let (mac, _, h1) = then_try-some p1 _ proof h in
      let p2 = c.context_new mac p1.1 in
      let (context, _, h2) = then_try-some p2 _ proof h1 in
      let p3 = c.mac_init context secret p2.1 in
      let (c0, e0, h3) = then_try-some p3 _ proof h2 in
      let p4 = c.mac_update c0 domain p3.1 in
      let (c1, e1, h4) = then_try-some p4 _ proof h3 in
      let p5 = c.mac_update c1 sn p4.1 in
      let (c2, e2, h5) = then_try-some p5 _ proof h4 in
      let p6 = c.mac_update c2 cn p5.1 in
      let (c3, e3, h6) = then_try-some p6 _ proof h5 in
      let p7 = update_binding c c3 binding p6.1 in
      let (c4, e4, h7) = then_try-some p7 _ proof h6 in
      let p8 = c.mac_final c4 proof_size p7.1 in
      let (bytes, e5, h8) = then_try-some p8 _ proof h7 in
      let (same, size) = check_size_lem bytes proof _ h8 in
      let (k0, m0) = laws.init_law _ c0 secret _ e0 in
      let (k1, m1) = laws.update_law c0 c1 domain _ e1 in
      let (k2, m2) = laws.update_law c1 c2 sn _ e2 in
      let (k3, m3) = laws.update_law c2 c3 cn _ e3 in
      let (k4, m4) = update_binding_lem c3 c4 binding _ e4 in
      (
        same
            ∙ laws.final_law c4 proof_size bytes _ e5
            ∙ ap (λ (k : List ℕ). laws.mac k (laws.message c4)) (k4 ∙ k3 ∙ k2 ∙ k1 ∙ k0)
            ∙ ap (laws.mac secret) (
                m4
                ∙ rw (m3, m2, m1, m0)
                    (append_assoc (domain ++ sn) cn binding
                      ∙ append_assoc domain sn (cn ++ binding))),
        size,
      )
