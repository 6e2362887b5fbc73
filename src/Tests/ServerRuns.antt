-- ===== src/Tests/ServerRuns.antt =====
-- A server with one worker (src/server/concurrent_server.cpp) that is stopped while it serves a session.
use syncwire.Common.{
  ◌+◌, ◌%◌, ◌^◌, ◌≤◌, ◌<◌, ◌≡◌, refl, true, false, [], ◌∷◌, arith, length, All, replicate,
}
use syncwire.Server.{
  ConcurrentServerConfig, Impl, new_impl, accept_client, enqueue, observe_peak, take_client, idle,
  register, end_session, count_session, shutdown_active_connections, store_stop, stop_queue,
  accepts, enqueues, observes, takes, leaves, registers, ends, counts, stops, shuts, stops_queue,
  Reaches, here, then_step,
}
use syncwire.Server.Workers.{IsShut, IsStopped}
use syncwire.Server.Shutdown.{Reaches-bounded, Reaches-IsShut, Reaches-counted}

abbrev one_worker : ConcurrentServerConfig
one_worker = record {
  bind_address = 49 ∷ [];
  destination_root = 114 ∷ [];
  authentication_secret = replicate 16 65;
  worker_count = 1;
  max_pending_connections = 1;
  backlog = 1;
  epoll_timeout_ms = 100;
}

-- Connection 5 is in its session when the shutdown of the active connections comes.
abbrev in_session : Impl
in_session =
    register 0 5
      (take_client 0 (5 ∷ []) (observe_peak 1 (enqueue 5 (accept_client 5 (new_impl one_worker)))))

abbrev shut_impl : Impl
shut_impl = shutdown_active_connections (store_stop in_session)

in_session_reached : Reaches (new_impl one_worker) in_session
unfolding new_impl accept_client enqueue observe_peak take_client register
in_session_reached =
    then_step
      (then_step
        (then_step (then_step (then_step here (accepts 5 refl refl)) (enqueues refl))
          (observes refl))
        (takes 0 refl refl))
      (registers 0 refl)

shut_impl_reached : Reaches (new_impl one_worker) shut_impl
shut_impl_reached = then_step (then_step in_session_reached stops) shuts

-- The session ends with an error, the queue is closed and the worker leaves.
abbrev ended : Impl
ended = take_client 0 [] (stop_queue (count_session 0 false (end_session 0 false shut_impl)))

ended_reached : Reaches (new_impl one_worker) ended
unfolding new_impl accept_client enqueue observe_peak take_client register
    shutdown_active_connections store_stop end_session count_session stop_queue
ended_reached =
    then_step
      (then_step (then_step (then_step shut_impl_reached (ends 0 false refl)) (counts 0 refl))
        stops_queue)
      (leaves 0 refl refl refl)

Reaches-bounded_example : (length in_session.pending ≤ 1) × (in_session.peak_pending ≤ 1)
Reaches-bounded_example = Reaches-bounded one_worker in_session in_session_reached

shut_stopping : shut_impl.active_stopping ≡ true
unfolding shutdown_active_connections
shut_stopping = refl

Reaches-IsShut_example : All IsShut shut_impl.workers
Reaches-IsShut_example = Reaches-IsShut one_worker shut_impl shut_impl_reached shut_stopping

ended_facts : (0 < length ended.workers) × All IsStopped ended.workers × (ended.acceptor ≡ idle)
unfolding new_impl accept_client enqueue observe_peak take_client register
    shutdown_active_connections store_stop end_session count_session stop_queue
ended_facts = (omega arith, (refl, tt), refl)

Reaches-counted_example :
    ended.accepted ≡ (ended.completed + ended.failed + ended.rejected + ended.cancelled) % 2 ^ 64
Reaches-counted_example =
    Reaches-counted one_worker ended ended_reached ended_facts.0 ended_facts.1 ended_facts.2
