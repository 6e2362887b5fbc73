-- ===== src/Server/Invariant.antt =====
-- The invariant of the threads of src/server/concurrent_server.cpp, and the acceptor's steps.
use syncwire.Common.{
  ℕ, ◌+◌, ◌%◌, ◌^◌, ◌≤◌, ◌<◌, ◌≡◌, ◌≢◌, ap, Bool, true, false, [], ◌∷◌, not, ◌&&◌, ltb,
  if◌then◌else◌, length, length-append, All, arith, Bool-cases, inl, inr,
}
use syncwire.Server.{
  Worker, stopped, Acceptor, idle, accepted_one, enqueued, refused, Impl, accept_client, enqueue,
  observe_peak, reject,
}
use syncwire.Server.Workers.{owned, IsShut}

-- The connection that the acceptor has accepted and not yet queued or counted, and the depth that it
-- has still to report.
abbrev pub held : Acceptor → ℕ
held idle = 0
held (accepted_one fd) = 1
held (enqueued depth) = 0
held refused = 1

abbrev pub depth_of : Acceptor → ℕ
depth_of (enqueued depth) = depth
depth_of a = 0

abbrev pub IsRunning : Worker → Type 0
IsRunning w = w ≢ stopped

pub record IsServer (max : ℕ) (m : Impl) : Type 0 where
  pub same_max : m.max_pending_connections ≡ max
  pub counted :
      m.accepted
      ≡ (m.completed
          + m.failed
          + m.rejected
          + m.cancelled
          + length m.pending
          + held m.acceptor
          + owned m.workers)
        % 2 ^ 64
  pub pending_fits : length m.pending ≤ max
  pub peak_fits : m.peak_pending ≤ max
  pub depth_fits : depth_of m.acceptor ≤ max
  pub emptied : m.workers_stopping ≡ true → m.pending ≡ []
  pub running : m.workers_stopping ≡ false → All IsRunning m.workers
  pub shut : m.active_stopping ≡ true → All IsShut m.workers

pub accept_client-IsServer :
    (k fd : ℕ) (m : Impl) → m.acceptor ≡ idle → IsServer k m → IsServer k (accept_client fd m)
unfolding accept_client
accept_client-IsServer k fd m h v = record {
  same_max = v.same_max;
  counted = omega (arith, v.counted, ap held h);
  pending_fits = v.pending_fits;
  peak_fits = v.peak_fits;
  depth_fits = omega arith;
  emptied = v.emptied;
  running = v.running;
  shut = v.shut;
}

pub enqueue-IsServer :
    (k fd : ℕ) (m : Impl) → m.acceptor ≡ accepted_one fd → IsServer k m → IsServer k (enqueue fd m)
unfolding enqueue
enqueue-IsServer k fd m h v =
    let longer = length-append m.pending (fd ∷ []) in
    elim (Bool-cases (not m.workers_stopping && ltb (length m.pending) m.max_pending_connections)) [
      | inl room ↦
          let space : length m.pending < k = ground (arith, v.same_max) in
          let open_queue : m.workers_stopping ≡ false = ground arith in
          rw (enqueue, room)
            (record {
              same_max = v.same_max;
              counted = omega (arith, v.counted, ap held h, longer);
              pending_fits = omega (arith, longer);
              peak_fits = v.peak_fits;
              depth_fits = omega (arith, longer);
              emptied = λ e. cc (e, open_queue);
              running = v.running;
              shut = v.shut;
            })
      | inr full ↦
          rw (enqueue, full)
            (record {
              same_max = v.same_max;
              counted = omega (arith, v.counted, ap held h);
              pending_fits = v.pending_fits;
              peak_fits = v.peak_fits;
              depth_fits = omega arith;
              emptied = v.emptied;
              running = v.running;
              shut = v.shut;
            })
    ]

pub observe_peak-IsServer :
    (k depth : ℕ) (m : Impl)
    → m.acceptor ≡ enqueued depth
    → IsServer k m
    → IsServer k (observe_peak depth m)
unfolding observe_peak
observe_peak-IsServer k depth m h v = record {
  same_max = v.same_max;
  counted = omega (arith, v.counted, ap held h);
  pending_fits = v.pending_fits;
  peak_fits = at_most (ltb m.peak_pending depth);
  depth_fits = omega arith;
  emptied = v.emptied;
  running = v.running;
  shut = v.shut;
}
  where
    at_most : (b : Bool) → (if b then depth else m.peak_pending) ≤ k
    at_most true = omega (arith, v.depth_fits, ap depth_of h)
    at_most false = v.peak_fits

pub reject-IsServer :
    (k : ℕ) (m : Impl) → m.acceptor ≡ refused → IsServer k m → IsServer k (reject m)
unfolding reject
reject-IsServer k m h v = record {
  same_max = v.same_max;
  counted = omega (arith, v.counted, ap held h);
  pending_fits = v.pending_fits;
  peak_fits = v.peak_fits;
  depth_fits = omega arith;
  emptied = v.emptied;
  running = v.running;
  shut = v.shut;
}
