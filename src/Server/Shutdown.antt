-- ===== src/Server/Shutdown.antt =====
-- What every run of the threads of src/server/concurrent_server.cpp comes to.
use syncwire.Common.{
  ℕ, zero, suc, ◌+◌, ◌%◌, ◌^◌, ◌≤◌, ◌<◌, ◌≡◌, refl, ap, true, List, [], ◌∷◌, length, replicate, All,
  arith, Bool-cases, inl, inr,
}
use syncwire.Server.{
  ConcurrentServerConfig, Worker, waiting, idle, Impl, new_impl, Reaches, here, then_step,
}
use syncwire.Server.Workers.{IsShut, IsStopped, owned-stopped, owned-replicate}
use syncwire.Server.Invariant.{held, IsRunning, IsServer}
use syncwire.Server.Steps.{Step-IsServer}

All-waiting : (n : ℕ) → All IsRunning (replicate n waiting)
All-waiting zero = tt
All-waiting (suc n) = (λ e. cc e, All-waiting n)

new_impl-IsServer :
    (config : ConcurrentServerConfig) → IsServer config.max_pending_connections (new_impl config)
unfolding new_impl
new_impl-IsServer config = record {
  same_max = refl;
  counted = omega (arith, owned-replicate config.worker_count);
  pending_fits = omega arith;
  peak_fits = omega arith;
  depth_fits = omega arith;
  emptied = λ e. refl;
  running = λ e. All-waiting config.worker_count;
  shut = λ e. cc e;
}

Reaches-IsServer : (k : ℕ) (a b : Impl) → Reaches a b → IsServer k a → IsServer k b
Reaches-IsServer k a _ here v = v
Reaches-IsServer k a _ (then_step {b = b} r s) v =
    Step-IsServer k b _ s (Reaches-IsServer k a b r v)

-- In whatever order the threads' steps come: the queue never holds more than
-- max_pending_connections, nor is the reported peak ever above it.
pub Reaches-bounded :
    (config : ConcurrentServerConfig) (m : Impl)
    → Reaches (new_impl config) m
    → (length m.pending ≤ config.max_pending_connections)
      × (m.peak_pending ≤ config.max_pending_connections)
Reaches-bounded config m r =
    let v =
      Reaches-IsServer config.max_pending_connections (new_impl config) m r
        (new_impl-IsServer config) in
    (v.pending_fits, v.peak_fits)

-- In whatever order the threads' steps come: once the shutdown of the active connections has begun,
-- every session that a worker is in has had its connection shut down.
pub Reaches-IsShut :
    (config : ConcurrentServerConfig) (m : Impl)
    → Reaches (new_impl config) m
    → m.active_stopping ≡ true
    → All IsShut m.workers
Reaches-IsShut config m r =
    let v =
      Reaches-IsServer config.max_pending_connections (new_impl config) m r
        (new_impl-IsServer config) in
    v.shut

-- In whatever order the threads' steps come: once all workers (one at least) have left their loop and
-- the acceptor is idle, the number of accepted connections is that of the completed, failed, rejected
-- and cancelled ones together, modulo 2 ^ 64 as the counters are.
pub Reaches-counted :
    (config : ConcurrentServerConfig) (m : Impl)
    → Reaches (new_impl config) m
    → 0 < length m.workers
    → All IsStopped m.workers
    → m.acceptor ≡ idle
    → m.accepted ≡ (m.completed + m.failed + m.rejected + m.cancelled) % 2 ^ 64
Reaches-counted config m r some_worker all_stopped at_rest =
    let v =
      Reaches-IsServer config.max_pending_connections (new_impl config) m r
        (new_impl-IsServer config) in
    elim (Bool-cases m.workers_stopping) [
      | inl stopping ↦ omega (
        arith,
        v.counted,
        ap length (v.emptied stopping),
        ap held at_rest,
        owned-stopped m.workers all_stopped,
      )
      | inr going ↦ absurd (none_runs m.workers some_worker all_stopped (v.running going))
    ]
  where
    none_runs : (ws : List Worker) → 0 < length ws → All IsStopped ws → All IsRunning ws → ⊥
    none_runs [] h s n = absurd (omega arith)
    none_runs (w ∷ ws) h s n = n.0 s.0
