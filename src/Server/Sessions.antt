-- ===== src/Server/Sessions.antt =====
-- The workers' steps of src/server/concurrent_server.cpp and the invariant.
use syncwire.Common.{
  ℕ, ◌≡◌, ap, Bool, true, false, List, [], ◌∷◌, length, arith, Bool-cases, inl, inr,
}
use syncwire.Server.{
  waiting, holding, serving, served, stopped, Impl, at_worker, take_client, register, end_session,
  count_session,
}
use syncwire.Server.Workers.{IsShut, owned-set, All-set}
use syncwire.Server.Invariant.{IsRunning, IsServer}

pub take_client-IsServer :
    (k i fd : ℕ) (fds : List ℕ) (m : Impl)
    → at_worker m i ≡ waiting
    → m.pending ≡ fd ∷ fds
    → IsServer k m
    → IsServer k (take_client i (fd ∷ fds) m)
unfolding take_client
take_client-IsServer k i fd fds m h p v = record {
  same_max = v.same_max;
  counted =
      omega
        (arith, v.counted, ap length p, owned-set m.workers i waiting (holding fd) h (λ e. cc e));
  pending_fits = omega (arith, v.pending_fits, ap length p);
  peak_fits = v.peak_fits;
  depth_fits = v.depth_fits;
  emptied = λ e. cc (p, v.emptied e);
  running = λ e. All-set IsRunning m.workers i (holding fd) (v.running e) (λ c. cc c);
  shut = λ e. All-set IsShut m.workers i (holding fd) (v.shut e) tt;
}

pub leave-IsServer :
    (k i : ℕ) (m : Impl)
    → at_worker m i ≡ waiting
    → m.workers_stopping ≡ true
    → IsServer k m
    → IsServer k (take_client i [] m)
unfolding take_client
leave-IsServer k i m h stopping v = record {
  same_max = v.same_max;
  counted = omega (arith, v.counted, owned-set m.workers i waiting stopped h (λ e. cc e));
  pending_fits = v.pending_fits;
  peak_fits = v.peak_fits;
  depth_fits = v.depth_fits;
  emptied = v.emptied;
  running = λ e. cc (e, stopping);
  shut = λ e. All-set IsShut m.workers i stopped (v.shut e) tt;
}

pub register-IsServer :
    (k i fd : ℕ) (m : Impl)
    → at_worker m i ≡ holding fd
    → IsServer k m
    → IsServer k (register i fd m)
unfolding register
register-IsServer k i fd m h v = elim (Bool-cases m.active_stopping) [
  | inl stopping ↦
      rw (register, stopping)
        (record {
          same_max = v.same_max;
          counted =
              omega (arith, v.counted, owned-set m.workers i (holding fd) waiting h (λ e. cc e));
          pending_fits = v.pending_fits;
          peak_fits = v.peak_fits;
          depth_fits = v.depth_fits;
          emptied = v.emptied;
          running = λ e. All-set IsRunning m.workers i waiting (v.running e) (λ c. cc c);
          shut = λ e. All-set IsShut m.workers i waiting (v.shut stopping) tt;
        })
  | inr going ↦
      rw (register, going)
        (record {
          same_max = v.same_max;
          counted = omega (
            arith,
            v.counted,
            owned-set m.workers i (holding fd) (serving fd false) h (λ e. cc e),
          );
          pending_fits = v.pending_fits;
          peak_fits = v.peak_fits;
          depth_fits = v.depth_fits;
          emptied = v.emptied;
          running = λ e. All-set IsRunning m.workers i (serving fd false) (v.running e) (λ c. cc c);
          shut = λ e. cc e;
        })
]

pub end_session-IsServer :
    (k i fd : ℕ) (b good : Bool) (m : Impl)
    → at_worker m i ≡ serving fd b
    → IsServer k m
    → IsServer k (end_session i good m)
unfolding end_session
end_session-IsServer k i fd b good m h v = record {
  same_max = v.same_max;
  counted =
      omega (arith, v.counted, owned-set m.workers i (serving fd b) (served good) h (λ e. cc e));
  pending_fits = v.pending_fits;
  peak_fits = v.peak_fits;
  depth_fits = v.depth_fits;
  emptied = v.emptied;
  running = λ e. All-set IsRunning m.workers i (served good) (v.running e) (λ c. cc c);
  shut = λ e. All-set IsShut m.workers i (served good) (v.shut e) tt;
}

pub count_session-IsServer :
    (k i : ℕ) (good : Bool) (m : Impl)
    → at_worker m i ≡ served good
    → IsServer k m
    → IsServer k (count_session i good m)
unfolding count_session
count_session-IsServer k i true m h v = record {
  same_max = v.same_max;
  counted = omega (arith, v.counted, owned-set m.workers i (served true) waiting h (λ e. cc e));
  pending_fits = v.pending_fits;
  peak_fits = v.peak_fits;
  depth_fits = v.depth_fits;
  emptied = v.emptied;
  running = λ e. All-set IsRunning m.workers i waiting (v.running e) (λ c. cc c);
  shut = λ e. All-set IsShut m.workers i waiting (v.shut e) tt;
}
count_session-IsServer k i false m h v = record {
  same_max = v.same_max;
  counted = omega (arith, v.counted, owned-set m.workers i (served false) waiting h (λ e. cc e));
  pending_fits = v.pending_fits;
  peak_fits = v.peak_fits;
  depth_fits = v.depth_fits;
  emptied = v.emptied;
  running = λ e. All-set IsRunning m.workers i waiting (v.running e) (λ c. cc c);
  shut = λ e. All-set IsShut m.workers i waiting (v.shut e) tt;
}
