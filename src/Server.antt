-- ===== src/Server.antt =====
-- src/server/concurrent_server.cpp: the acceptor, the queue of connections and the workers, cut at
-- their critical sections and atomic operations.
pub mod Workers
pub mod Invariant
pub mod Sessions
pub mod Steps
pub mod Shutdown
use syncwire.Common.{
  ℕ, zero, suc, ◌+◌, ◌%◌, ◌^◌, ◌≤◌, ◌<◌, ◌≡◌, Bool, true, false, List, [], ◌∷◌, ◌++◌, not, ◌&&◌,
  ltb, leb, if◌then◌else◌, length, get_or, set, map, replicate,
}
use syncwire.Authentication.{is_valid_authentication_secret}

pub record ConcurrentServerConfig : Type 0 where
  pub bind_address : List ℕ
  pub destination_root : List ℕ
  pub authentication_secret : List ℕ
  pub worker_count : ℕ
  pub max_pending_connections : ℕ
  pub backlog : ℕ
  pub epoll_timeout_ms : ℕ

-- backlog and epoll_timeout_ms are int in the source, which refuses what is not positive: 0 stands for
-- every such value.
unfoldable pub valid_config : ConcurrentServerConfig → Bool
valid_config config =
    ltb 0 (length config.bind_address)
    && (ltb 0 (length config.destination_root)
        && (is_valid_authentication_secret config.authentication_secret
            && (ltb 0 config.worker_count
                && (leb config.worker_count 256
                    && (ltb 0 config.max_pending_connections
                        && (leb config.max_pending_connections 65536
                            && (ltb 0 config.backlog
                                && (ltb 0 config.epoll_timeout_ms
                                    && leb config.epoll_timeout_ms 60000))))))))

-- Where a worker stands in worker_loop, with the connection that it owns: at the queue; between the
-- queue's lock and the active set's; in serve_client_session, its descriptor in active_connections
-- (and whether ::shutdown has been called on it); behind the erase, with the session's outcome.
pub data Worker : Type 0 where
  waiting : Worker
  holding : ℕ → Worker
  serving : ℕ → Bool → Worker
  served : Bool → Worker
  stopped : Worker

-- Where accept_ready_connections stands.
pub data Acceptor : Type 0 where
  idle : Acceptor
  accepted_one : ℕ → Acceptor
  enqueued : ℕ → Acceptor
  refused : Acceptor

-- The members of Impl that the threads share, and the places of the threads. active_connections are
-- the descriptors of the workers that are serving.
pub record Impl : Type 0 where
  pub max_pending_connections : ℕ
  pub stop_requested : Bool
  pub pending : List ℕ
  pub workers_stopping : Bool
  pub active_stopping : Bool
  pub workers : List Worker
  pub acceptor : Acceptor
  pub accepted : ℕ
  pub completed : ℕ
  pub failed : ℕ
  pub rejected : ℕ
  pub cancelled : ℕ
  pub peak_pending : ℕ

-- fetch_add on a std::atomic<std::uint64_t>.
abbrev pub fetch_add : ℕ → ℕ → ℕ
fetch_add a n = (a + n) % 2 ^ 64

unfoldable pub new_impl : ConcurrentServerConfig → Impl
new_impl config = record {
  max_pending_connections = config.max_pending_connections;
  stop_requested = false;
  pending = [];
  workers_stopping = false;
  active_stopping = false;
  workers = replicate config.worker_count waiting;
  acceptor = idle;
  accepted = 0;
  completed = 0;
  failed = 0;
  rejected = 0;
  cancelled = 0;
  peak_pending = 0;
}

abbrev pub at_worker : Impl → ℕ → Worker
at_worker m i = get_or m.workers i stopped

-- ::accept4 has given a descriptor.
unfoldable pub accept_client : ℕ → Impl → Impl
accept_client fd m = record m { accepted = fetch_add m.accepted 1; acceptor = accepted_one fd }

-- The section under queue_mutex.
unfoldable pub enqueue : ℕ → Impl → Impl
enqueue fd m =
    if not m.workers_stopping && ltb (length m.pending) m.max_pending_connections
    then record m {
      pending = m.pending ++ (fd ∷ []);
      acceptor = enqueued (length (m.pending ++ (fd ∷ [])));
    }
    else record m { acceptor = refused }

-- Only the acceptor calls it, so that its compare-and-swap loop ends with the greater of the two.
unfoldable pub observe_peak : ℕ → Impl → Impl
observe_peak depth m = record m {
  peak_pending = if ltb m.peak_pending depth then depth else m.peak_pending;
  acceptor = idle;
}

unfoldable pub reject : Impl → Impl
reject m = record m { rejected = fetch_add m.rejected 1; acceptor = idle }

-- A worker behind its wait on queue_ready, for a queue as it finds it.
unfoldable pub take_client : ℕ → List ℕ → Impl → Impl
take_client i [] m = record m { workers = set m.workers i stopped }
take_client i (fd ∷ fds) m = record m { pending = fds; workers = set m.workers i (holding fd) }

-- Register or cancel, under active_mutex.
unfoldable pub register : ℕ → ℕ → Impl → Impl
register i fd m =
    if m.active_stopping
    then record m { cancelled = fetch_add m.cancelled 1; workers = set m.workers i waiting }
    else record m { workers = set m.workers i (serving fd false) }

-- serve_client_session has returned, with or without success: the erase under active_mutex.
unfoldable pub end_session : ℕ → Bool → Impl → Impl
end_session i good m = record m { workers = set m.workers i (served good) }

unfoldable pub count_session : ℕ → Bool → Impl → Impl
count_session i true m = record m {
  completed = fetch_add m.completed 1;
  workers = set m.workers i waiting;
}
count_session i false m = record m {
  failed = fetch_add m.failed 1;
  workers = set m.workers i waiting;
}

abbrev pub shut_down : Worker → Worker
shut_down (serving fd b) = serving fd true
shut_down w = w

unfoldable pub shutdown_active_connections : Impl → Impl
shutdown_active_connections m = record m {
  active_stopping = true;
  workers = map shut_down m.workers;
}

unfoldable pub store_stop : Impl → Impl
store_stop m = record m { stop_requested = true }

-- stop_workers, under queue_mutex.
unfoldable pub stop_queue : Impl → Impl
stop_queue m = record m {
  workers_stopping = true;
  cancelled = fetch_add m.cancelled (length m.pending);
  pending = [];
}

-- One step of one thread.
pub data Step : Impl → Impl → Type 0 where
  accepts :
      {m : Impl} (fd : ℕ)
      → m.acceptor ≡ idle
      → m.stop_requested ≡ false
      → Step m (accept_client fd m)
  enqueues : {m : Impl} {fd : ℕ} → m.acceptor ≡ accepted_one fd → Step m (enqueue fd m)
  observes : {m : Impl} {depth : ℕ} → m.acceptor ≡ enqueued depth → Step m (observe_peak depth m)
  rejects : {m : Impl} → m.acceptor ≡ refused → Step m (reject m)
  takes :
      {m : Impl} {fd : ℕ} {fds : List ℕ} (i : ℕ)
      → at_worker m i ≡ waiting
      → m.pending ≡ fd ∷ fds
      → Step m (take_client i (fd ∷ fds) m)
  leaves :
      {m : Impl} (i : ℕ)
      → at_worker m i ≡ waiting
      → m.workers_stopping ≡ true
      → m.pending ≡ []
      → Step m (take_client i [] m)
  registers : {m : Impl} {fd : ℕ} (i : ℕ) → at_worker m i ≡ holding fd → Step m (register i fd m)
  ends :
      {m : Impl} {fd : ℕ} {b : Bool} (i : ℕ) (good : Bool)
      → at_worker m i ≡ serving fd b
      → Step m (end_session i good m)
  counts :
      {m : Impl} {good : Bool} (i : ℕ)
      → at_worker m i ≡ served good
      → Step m (count_session i good m)
  stops : {m : Impl} → Step m (store_stop m)
  shuts : {m : Impl} → Step m (shutdown_active_connections m)
  stops_queue : {m : Impl} → Step m (stop_queue m)

-- What any interleaving of steps leads to.
pub data Reaches : Impl → Impl → Type 0 where
  here : {m : Impl} → Reaches m m
  then_step : {a b c : Impl} → Reaches a b → Step b c → Reaches a c
