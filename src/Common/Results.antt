-- ===== src/Common/Results.antt =====
-- std::variant<Value, Error> as a result type, with the binding that an early error return stands for.
use mathlib.Core.Path.{◌≡◌, refl}
use mathlib.Core.Logic.{◌⊎◌, inl, inr}
use mathlib.Core.Option.{Option, none, some}
use Prim.Native.Nat.{ℕ}

pub data Outcome {ℓ κ} (E : Type κ) (A : Type ℓ) : Type (ℓ ⊔ κ) where
  ok : A → Outcome E A
  err : E → Outcome E A

infixl 5 ◌>>=◌
abbrev pub ◌>>=◌ {ℓ ℓ' κ} :
    {E : Type κ} {A : Type ℓ} {B : Type ℓ'} → Outcome E A → (A → Outcome E B) → Outcome E B
ok a >>= f = f a
err e >>= f = err e

pub Outcome-cases {ℓ κ} :
    {E : Type κ} {A : Type ℓ} (r : Outcome E A) → ((a : A) × (r ≡ ok a)) ⊎ ((e : E) × (r ≡ err e))
Outcome-cases (ok a) = inl (a, refl)
Outcome-cases (err e) = inr (e, refl)

-- A step on a state that may fail, and what follows it when it has not.
abbrev pub then_do {ℓ ℓ' κ σ} :
    {E : Type κ} {A : Type ℓ} {B : Type ℓ'} {W : Type σ}
    → Outcome E A × W
    → (A → W → Outcome E B × W)
    → Outcome E B × W
then_do (ok a, w) f = f a w
then_do (err e, w) f = (err e, w)

-- What holds of the value and the state of a step, by how it ended.
abbrev pub Ensures {ℓ κ σ ρ} :
    {E : Type κ} {A : Type ℓ} {W : Type σ}
    → (A → W → Type ρ)
    → (E → W → Type ρ)
    → Outcome E A × W
    → Type ρ
Ensures P Q (ok a, w) = P a w
Ensures P Q (err e, w) = Q e w

pub Ensures-then_do {ℓ ℓ' κ σ ρ} :
    {E : Type κ} {A : Type ℓ} {B : Type ℓ'} {W : Type σ} (P : A → W → Type ρ) (R : B → W → Type ρ)
    (Q : E → W → Type ρ) (m : Outcome E A × W) (f : A → W → Outcome E B × W)
    → Ensures P Q m
    → ((a : A) (w : W) → P a w → Ensures R Q (f a w))
    → Ensures R Q (then_do m f)
Ensures-then_do P R Q (ok a, w) f h k = k a w h
Ensures-then_do P R Q (err e, w) f h k = h

-- A step on a state that may fail, with what is done on either outcome.
abbrev pub handle {ℓ κ σ ρ} :
    {E : Type κ} {A : Type ℓ} {W : Type σ} {R : Type ρ}
    → Outcome E A × W
    → (E → W → R × W)
    → (A → W → R × W)
    → R × W
handle (ok a, w) f g = g a w
handle (err e, w) f g = f e w

pub handle_lem {ℓ κ σ ρ τ} :
    {E : Type κ} {A : Type ℓ} {W : Type σ} {R : Type ρ} (P : A → W → Type τ) (Q : E → W → Type τ)
    (S : R × W → Type τ) (m : Outcome E A × W) (f : E → W → R × W) (g : A → W → R × W)
    → Ensures P Q m
    → ((e : E) (w : W) → Q e w → S (f e w))
    → ((a : A) (w : W) → P a w → S (g a w))
    → S (handle m f g)
handle_lem P Q S (ok a, w) f g h j k = k a w h
handle_lem P Q S (err e, w) f g h j k = j e w h

-- A call that fails with an error number or else gives nothing.
abbrev pub attempt {σ} : {W : Type σ} → Option ℕ × W → Outcome ℕ (Unit {0}) × W
attempt (none, w) = (ok tt, w)
attempt (some e, w) = (err e, w)

-- What holds of its state whether it fails or not, and what holds once it has not.
pub attempt-Ensures {σ ρ} :
    {W : Type σ} (P : W → Type ρ) (Q : W → Type ρ) (m : Option ℕ × W)
    → Q m.1
    → (m.0 ≡ none → P m.1)
    → Ensures (λ (u : Unit {0}) w. P w) (λ (e : ℕ) w. Q w) (attempt m)
attempt-Ensures P Q (none, w) q p = p refl
attempt-Ensures P Q (some e, w) q p = q

-- The same failure under another name.
abbrev pub map_err {ℓ κ κ' σ} :
    {E : Type κ} {E' : Type κ'} {A : Type ℓ} {W : Type σ}
    → (E → E')
    → Outcome E A × W
    → Outcome E' A × W
map_err f (ok a, w) = (ok a, w)
map_err f (err e, w) = (err (f e), w)

pub Ensures-map_err {ℓ κ κ' σ ρ} :
    {E : Type κ} {E' : Type κ'} {A : Type ℓ} {W : Type σ} (P : A → W → Type ρ) (Q : E → W → Type ρ)
    (Q' : E' → W → Type ρ) (f : E → E') (m : Outcome E A × W)
    → Ensures P Q m
    → ((e : E) (w : W) → Q e w → Q' (f e) w)
    → Ensures P Q' (map_err f m)
Ensures-map_err P Q Q' f (ok a, w) h k = h
Ensures-map_err P Q Q' f (err e, w) h k = k e w h

-- What a successful chain has gone through.
pub >>=-ok {ℓ ℓ' κ} :
    {E : Type κ} {A : Type ℓ} {B : Type ℓ'} (r : Outcome E A) (f : A → Outcome E B) (b : B)
    → (r >>= f) ≡ ok b
    → (a : A) × (r ≡ ok a) × (f a ≡ ok b)
>>=-ok (ok a) f b e = (a, refl, e)
>>=-ok (err n) f b e = cc e
