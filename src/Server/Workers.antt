-- ===== src/Server/Workers.antt =====
-- What the workers of src/server/concurrent_server.cpp own, together.
use syncwire.Common.{
  ℕ, zero, suc, ◌+◌, ◌≡◌, ◌≢◌, refl, ap, true, List, [], ◌∷◌, map, get_or, set, replicate, All,
  arith,
}
use syncwire.Server.{Worker, waiting, holding, serving, served, stopped, shut_down}

-- The connections that a worker owns and has not counted.
abbrev pub weight : Worker → ℕ
weight waiting = 0
weight (holding fd) = 1
weight (serving fd b) = 1
weight (served b) = 1
weight stopped = 0

abbrev pub owned : List Worker → ℕ
owned [] = 0
owned (w ∷ ws) = weight w + owned ws

-- A worker blocked in a session has had its connection shut down.
abbrev pub IsShut : Worker → Type 0
IsShut (serving fd b) = b ≡ true
IsShut w = Unit

abbrev pub IsStopped : Worker → Type 0
IsStopped w = w ≡ stopped

pub owned-set :
    (ws : List Worker) (i : ℕ) (x y : Worker)
    → get_or ws i stopped ≡ x
    → x ≢ stopped
    → owned (set ws i y) + weight x ≡ owned ws + weight y
owned-set [] i x y h n = absurd (n (cc h))
owned-set (w ∷ ws) zero x y h n = omega (arith, ap weight h)
owned-set (w ∷ ws) (suc i) x y h n = omega (arith, owned-set ws i x y h n)

pub All-set {κ} :
    (P : Worker → Type κ) (ws : List Worker) (i : ℕ) (y : Worker)
    → All P ws
    → P y
    → All P (set ws i y)
All-set P [] i y h p = tt
All-set P (w ∷ ws) zero y h p = (p, h.1)
All-set P (w ∷ ws) (suc i) y h p = (h.0, All-set P ws i y h.1 p)

weight-shut_down : (w : Worker) → weight (shut_down w) ≡ weight w
weight-shut_down waiting = refl
weight-shut_down (serving fd b) = refl
weight-shut_down w = refl

pub owned-shut_down : (ws : List Worker) → owned (map shut_down ws) ≡ owned ws
owned-shut_down [] = refl
owned-shut_down (w ∷ ws) = omega (arith, weight-shut_down w, owned-shut_down ws)

IsShut-shut_down : (w : Worker) → IsShut (shut_down w)
IsShut-shut_down waiting = tt
IsShut-shut_down (serving fd b) = refl
IsShut-shut_down (holding fd) = tt
IsShut-shut_down (served b) = tt
IsShut-shut_down stopped = tt

pub All-shut_down : (ws : List Worker) → All IsShut (map shut_down ws)
All-shut_down [] = tt
All-shut_down (w ∷ ws) = (IsShut-shut_down w, All-shut_down ws)

pub owned-stopped : (ws : List Worker) → All IsStopped ws → owned ws ≡ 0
owned-stopped [] h = refl
owned-stopped (w ∷ ws) h = omega (arith, ap weight h.0, owned-stopped ws h.1)

pub owned-replicate : (n : ℕ) → owned (replicate n waiting) ≡ 0
owned-replicate zero = refl
owned-replicate (suc n) = omega (arith, owned-replicate n)
