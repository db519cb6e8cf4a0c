-- ===== src/Setuid.antt =====
-- source/core/progs/setuid.c: `initsetuid`, the debug test, and `system_core` with its children.
pub mod Strlcat
pub mod Privileges
pub mod Initial
pub mod Behaviour
pub mod Footprint
pub mod Calls
pub mod Log
use ipcop_alpine.Prelude.{
  ℕ, zero, suc, ◌+◌, ◌-◌, Bool, true, false, not, ◌&&◌, ◌||◌, List, [], ◌∷◌, ◌++◌, ◌==◌, ltb, leb,
  if◌then◌else◌, Option, none, some,
}
use ipcop_alpine.Cstring.{Bytes, codes, has_text, fgets_lines}
use ipcop_alpine.Os.{
  Os, M, pure, ◌>>=◌, ◌>>◌, choose, when, for_each, exit, call, act, contents, minus_one, Out,
  replaced, fopen_read, fclose, signal_ignore, close, fstat, setgid, setuid, getdtablesize,
  get_errno, open_null, setrlimit_core, setgroups_none, pipe, fork, close_pipes, dup_pipes, execve,
  waitpid,
}

-- Linux: SIGKILL, SIGCHLD, NSIG and EBADF, EINTR. OPEN_MAX is the fallback of the file.
abbrev pub sigkill : ℕ
sigkill = 9

abbrev pub sigchld : ℕ
sigchld = 17

abbrev pub nsig : ℕ
nsig = 65

abbrev ebadf : ℕ
ebadf = 9

abbrev eintr : ℕ
eintr = 4

abbrev open_max : ℕ
open_max = 256

-- `n` numbers from `i` on: the rounds of a counting loop.
unfoldable pub count_from : ℕ → ℕ → List ℕ
count_from i zero = []
count_from i (suc n) = i ∷ count_from (i + 1) n

module _ (os : Os) where
  unfoldable pub ignore_signals : M (Unit {0})
  unfolding count_from
  ignore_signals =
      for_each (count_from 0 nsig)
        λ i. when (not (i == sigkill) && not (i == sigchld)) (act os (signal_ignore i))

  unfoldable pub close_descriptors : M (Unit {0})
  unfolding count_from
  close_descriptors = do
    size ← call os getdtablesize
    let fds = if size == minus_one then open_max else size
    -- a negative `fds` ends the loop at once
    for_each (count_from 3 (if leb (2147483648) fds then 0 else fds - 3)) (λ i. act os (close i))

  -- A standard descriptor is open, or can be opened on /dev/null under its own number.
  unfoldable pub descriptor_open : ℕ → M Bool
  descriptor_open i = do
    rc ← call os (fstat i)
    choose (not (rc == minus_one)) (pure true) do
      errno ← call os get_errno
      choose (not (errno == ebadf)) (pure false)
          do act os (close i); fd ← call os open_null; pure (fd == i)

  -- The calls that must all return 0, in their order.
  unfoldable pub drop_privileges : M ℕ
  drop_privileges = do
    limit ← call os setrlimit_core
    choose (not (limit == 0)) (pure 0) do
      groups ← call os setgroups_none
      choose (not (groups == 0)) (pure 0) do
        gid ← call os (setgid 0)
        choose (not (gid == 0)) (pure 0)
            do uid ← call os (setuid 0); choose (not (uid == 0)) (pure 0) (pure 1)

  unfoldable pub initsetuid : M ℕ
  initsetuid = do
    ignore_signals
    close_descriptors
    in_open ← descriptor_open 0
    choose (not in_open) (pure 0) do
      out_open ← descriptor_open 1
      choose (not out_open) (pure 0)
          do err_open ← descriptor_open 2; choose (not err_open) (pure 0) drop_privileges

  -- `if (!(initsetuid())) exit(1);`
  unfoldable pub require_setuid : M (Unit {0})
  require_setuid = do ok ← initsetuid; when (ok == 0) (exit 1)

any_line : List Bytes → Bool
any_line [] = false
any_line (line ∷ lines) =
    (has_text (codes "DEBUG_SYSTEM_CALLS") line && has_text (codes "=on") line) || any_line lines

-- The two buffers of `system_core` and the select loop's variables.
pub record Drain : Type 0 where
  pub stdout_pos : ℕ
  pub stderr_pos : ℕ
  pub stdout_open : Bool
  pub stderr_open : Bool

abbrev pub buffer_size : ℕ
buffer_size = 4096

-- What `select` reports: a timeout, an error, or the pipes that are ready, each with the number of
-- bytes that the pipe holds; `read` then gives at most what it is asked for, and 0 at the end.
pub data Ready : Type 0 where
  timeout error : Ready
  ready : Bool → ℕ → Bool → ℕ → Ready

-- One of the two `read` blocks: the position and whether the pipe stays open.
unfoldable pub read_pipe : Bool → ℕ → ℕ → Bool → ℕ × Bool
read_pipe is_set held pos is_open =
    let room = buffer_size - pos - 1 in
    let n = if ltb held room then held else room in
    if is_open && is_set
    then if ltb 0 n then (pos + n, is_open) else (pos, false)
    else (pos, is_open)

-- The select loop, on the reports of its rounds.
unfoldable pub drain : List Ready → Drain → Drain
drain [] d = d
drain (timeout ∷ reports) d = d
drain (error ∷ reports) d = if d.stdout_open || d.stderr_open then drain reports d else d
drain (ready out_set out_held err_set err_held ∷ reports) d =
    let (out_pos, out_open) = read_pipe out_set out_held d.stdout_pos d.stdout_open in
    let (err_pos, err_open) = read_pipe err_set err_held d.stderr_pos d.stderr_open in
    let rest = drain reports (record {
      stdout_pos = out_pos;
      stderr_pos = err_pos;
      stdout_open = out_open;
      stderr_open = err_open;
    }) in
    if d.stdout_open || d.stderr_open then rest else d

-- What `waitpid` does: a signal interrupts it, it fails otherwise, or it gives the status.
pub data Waited : Type 0 where
  interrupted failed : Waited
  status : ℕ → Waited

-- `do { ... } while (1)`; `none` while it goes on.
wait_child : List Waited → Option ℕ
wait_child [] = none
wait_child (interrupted ∷ waits) = wait_child waits
wait_child (failed ∷ waits) = some minus_one
wait_child (status rc ∷ waits) = some rc

abbrev pub drained : Drain
drained = record { stdout_pos = 0; stderr_pos = 0; stdout_open = true; stderr_open = true }

module _ (os : Os) where
  unfoldable pub is_debug_enabled : M Bool
  unfolding any_line
  is_debug_enabled = do
    opened ← call os (fopen_read (codes "/var/ipcop/main/settings"))
    choose (not (opened == 0)) (pure false) do
      text ← contents os (codes "/var/ipcop/main/settings")
      act os (fclose (codes "/var/ipcop/main/settings"))
      pure (any_line (fgets_lines 256 text))

  -- `execve` comes back only where it fails.
  unfoldable pub exec_shell : Bytes → M ℕ
  exec_shell command = do rc ← call os (execve command); choose (rc == 0) replaced (exit 127)

  -- The child: the group first, then the user, then the shell.
  unfoldable pub run_child : Bytes → ℕ → ℕ → M ℕ
  unfolding exec_shell
  run_child command uid gid = do
    gid_rc ← (choose (not (gid == 0)) (call os (setgid gid)) (pure 0))
    choose (not (gid_rc == 0)) (exit 127) do
      uid_rc ← (choose (not (uid == 0)) (call os (setuid uid)) (pure 0))
      choose (not (uid_rc == 0)) (exit 127) (exec_shell command)

  -- The two pipes, where debugging is on: whether output is captured.
  open_pipes : Bool → M Bool
  open_pipes debug = choose (not debug) (pure false) do
    out_rc ← call os pipe
    choose (out_rc == minus_one) (pure false)
        do err_rc ← call os pipe; pure (not (err_rc == minus_one))

  -- `reports` and `waits` are what the rounds of the select loop and of the wait loop get. The
  -- result is `none` while the parent still waits. A command that is NULL is `none`.
  unfoldable pub system_core :
      List Ready → List Waited → Option Bytes → ℕ → ℕ → M (Option ℕ × Drain)
  unfolding open_pipes wait_child drain
  system_core reports waits none uid gid = do debug ← is_debug_enabled; pure (some 1, drained)
  system_core reports waits (some command) uid gid = do
    debug ← is_debug_enabled
    capture ← open_pipes debug
    pid ← call os fork
    choose (pid == minus_one) (do when capture (act os close_pipes); pure (some minus_one, drained))
        (choose (pid == 0)
          (do
            when capture (act os dup_pipes)
            rc ← run_child command uid gid
            pure (some rc, drained))
          (do
            when capture (act os close_pipes)
            pure (wait_child waits, if capture then drain reports drained else drained)))
