-- ===== src/Server/Steps.antt =====
-- The stopping steps of src/server/concurrent_server.cpp and the invariant, and all steps together.
use syncwire.Common.{ℕ, refl, List, [], ◌∷◌, map, All, arith}
use syncwire.Server.{
  Worker, serving, Impl, shut_down, shutdown_active_connections, store_stop, stop_queue, Step,
  accepts, enqueues, observes, rejects, takes, leaves, registers, ends, counts, stops, shuts,
  stops_queue,
}
use syncwire.Server.Workers.{owned-shut_down, All-shut_down}
use syncwire.Server.Invariant.{
  IsRunning, IsServer, accept_client-IsServer, enqueue-IsServer, observe_peak-IsServer,
  reject-IsServer,
}
use syncwire.Server.Sessions.{
  take_client-IsServer, leave-IsServer, register-IsServer, end_session-IsServer,
  count_session-IsServer,
}

All-IsRunning-shut_down : (ws : List Worker) → All IsRunning ws → All IsRunning (map shut_down ws)
All-IsRunning-shut_down [] h = tt
All-IsRunning-shut_down (serving fd b ∷ ws) h = (λ c. cc c, All-IsRunning-shut_down ws h.1)
All-IsRunning-shut_down (w ∷ ws) h = (h.0, All-IsRunning-shut_down ws h.1)

shutdown_active_connections-IsServer :
    (k : ℕ) (m : Impl) → IsServer k m → IsServer k (shutdown_active_connections m)
unfolding shutdown_active_connections
shutdown_active_connections-IsServer k m v = record {
  same_max = v.same_max;
  counted = omega (arith, v.counted, owned-shut_down m.workers);
  pending_fits = v.pending_fits;
  peak_fits = v.peak_fits;
  depth_fits = v.depth_fits;
  emptied = v.emptied;
  running = λ e. All-IsRunning-shut_down m.workers (v.running e);
  shut = λ e. All-shut_down m.workers;
}

stop_queue-IsServer : (k : ℕ) (m : Impl) → IsServer k m → IsServer k (stop_queue m)
unfolding stop_queue
stop_queue-IsServer k m v = record {
  same_max = v.same_max;
  counted = omega (arith, v.counted);
  pending_fits = omega arith;
  peak_fits = v.peak_fits;
  depth_fits = v.depth_fits;
  emptied = λ e. refl;
  running = λ e. cc e;
  shut = v.shut;
}

-- Every step of every thread keeps the invariant, for the bound of the queue.
pub Step-IsServer : (k : ℕ) (m m' : Impl) → Step m m' → IsServer k m → IsServer k m'
unfolding store_stop
Step-IsServer k m _ (accepts fd h s) v = accept_client-IsServer k fd m h v
Step-IsServer k m _ (enqueues {fd = fd} h) v = enqueue-IsServer k fd m h v
Step-IsServer k m _ (observes {depth = depth} h) v = observe_peak-IsServer k depth m h v
Step-IsServer k m _ (rejects h) v = reject-IsServer k m h v
Step-IsServer k m _ (takes {fd = fd} {fds = fds} i h p) v = take_client-IsServer k i fd fds m h p v
Step-IsServer k m _ (leaves i h s p) v = leave-IsServer k i m h s v
Step-IsServer k m _ (registers {fd = fd} i h) v = register-IsServer k i fd m h v
Step-IsServer k m _ (ends {fd = fd} {b = b} i good h) v = end_session-IsServer k i fd b good m h v
Step-IsServer k m _ (counts {good = good} i h) v = count_session-IsServer k i good m h v
Step-IsServer k m _ stops v = record {
  same_max = v.same_max;
  counted = v.counted;
  pending_fits = v.pending_fits;
  peak_fits = v.peak_fits;
  depth_fits = v.depth_fits;
  emptied = v.emptied;
  running = v.running;
  shut = v.shut;
}
Step-IsServer k m _ shuts v = shutdown_active_connections-IsServer k m v
Step-IsServer k m _ stops_queue v = stop_queue-IsServer k m v
