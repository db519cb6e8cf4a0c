-- ===== src/Setuid/Initial.antt =====
-- `initsetuid` as a whole: what stands behind its result 1.
use ipcop_alpine.Prelude.{ℕ, ◌≡◌, Bool, true, false, not}
use ipcop_alpine.Os.{Os, History, Out, done, exited, crashed, replaced, M, pure, ◌>>=◌, choose}
use ipcop_alpine.Setuid.{initsetuid, ignore_signals, close_descriptors, descriptor_open}
use ipcop_alpine.Setuid.Privileges.{Dropped, drop_privileges-Dropped}

-- A run of two parts that comes to its end went through the first.
pub bind_done :
    {A B : Type 0} (m : M A) (f : A → M B) (h h' : History) {b : B}
    → (m >>= f) h ≡ done b h'
    → (a : A) × (h1 : History) × (f a h1 ≡ done b h')
unfolding ◌>>=◌
bind_done {A} {B} m f h h' {b} e = go (m h) e
  where
    go :
        (o : Out A)
        → (elim o [
          | done a h1 ↦ f a h1
          | exited n h1 ↦ exited n h1
          | crashed h1 ↦ crashed h1
          | replaced h1 ↦ replaced h1
        ])
          ≡ done b h'
        → (a : A) × (h1 : History) × (f a h1 ≡ done b h')
    go (done a h1) q = (a, h1, q)
    go (exited n h1) q = cc
    go (crashed h1) q = cc
    go (replaced h1) q = cc

-- A guard that gives 0 did not fail where the result is 1.
guard_done :
    (c : Bool) (m : M ℕ) (h h' : History)
    → choose (not c) (pure 0) m h ≡ done 1 h'
    → m h ≡ done 1 h'
unfolding choose pure
guard_done true m h h' e = e
guard_done false m h h' e = cc

-- `initsetuid` gives 1 only where its last calls are setrlimit, setgroups, setgid and setuid, in
-- this order and each with result 0.
pub initsetuid-Dropped :
    (os : Os) (h h' : History)
    → initsetuid os h ≡ done 1 h'
    → (before : History) × Dropped os before h'
unfolding initsetuid
initsetuid-Dropped os h h' e =
    let (_, h1, e1) = bind_done (ignore_signals os) _ h h' e in
    let (_, h2, e2) = bind_done (close_descriptors os) _ h1 h' e1 in
    let (in_open, h3, e3) = bind_done (descriptor_open os 0) _ h2 h' e2 in
    let (out_open, h4, e4) =
      bind_done (descriptor_open os 1) _ h3 h' (guard_done in_open _ h3 h' e3) in
    let (err_open, h5, e5) =
      bind_done (descriptor_open os 2) _ h4 h' (guard_done out_open _ h4 h' e4) in
    (h5, drop_privileges-Dropped os h5 h' (guard_done err_open _ h5 h' e5))
