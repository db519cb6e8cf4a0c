-- ===== src/Setuid/Privileges.antt =====
-- The order of the calls that give up or take on privileges, and the bounds of the output buffers.
use ipcop_alpine.Prelude.{ℕ, ◌≡◌, ◌<◌, ◌⊎◌, Bool, List, [], ◌∷◌, ◌++◌, ◌==◌, if◌then◌else◌, arith}
use ipcop_alpine.Cstring.{Bytes}
use ipcop_alpine.Os.{
  Os, History, done, replaced, pure, ◌>>=◌, choose, exit, call, setgid, setuid, setrlimit_core,
  setgroups_none, execve,
}
use ipcop_alpine.Setuid.{
  drop_privileges, run_child, exec_shell, Drain, Ready, timeout, error, ready, read_pipe, drain,
  buffer_size,
}

-- The four calls, in their order and each with result 0.
pub record Dropped (os : Os) (h : History) (h' : History) : Type 0 where
  order : h' ≡ setuid 0 ∷ setgid 0 ∷ setgroups_none ∷ setrlimit_core ∷ h
  limit_ok : os.status h setrlimit_core ≡ 0
  groups_ok : os.status (setrlimit_core ∷ h) setgroups_none ≡ 0
  gid_ok : os.status (setgroups_none ∷ setrlimit_core ∷ h) (setgid 0) ≡ 0
  uid_ok : os.status (setgid 0 ∷ setgroups_none ∷ setrlimit_core ∷ h) (setuid 0) ≡ 0

-- The tail of `initsetuid` gives 1 only behind the four calls, in this order and each with result
-- 0: no core dumps, no supplementary groups, then group and user of root.
pub drop_privileges-Dropped :
    (os : Os) (h h' : History) → drop_privileges os h ≡ done 1 h' → Dropped os h h'
unfolding drop_privileges pure ◌>>=◌ choose call
drop_privileges-Dropped os h h' e = ground arith

-- The calls of a child that became the shell.
pub record AsUser (os : Os) (command : Bytes) (uid gid : ℕ) (h h' : History) : Type 0 where
  gid_set : (gid ≡ 0) ⊎ (os.status h (setgid gid) ≡ 0)
  order :
      h'
      ≡ execve command
        ∷ ((if uid == 0 then [] else setuid uid ∷ [])
            ++ ((if gid == 0 then [] else setgid gid ∷ []) ++ h))
  uid_set :
      (uid ≡ 0) ⊎ (os.status ((if gid == 0 then [] else setgid gid ∷ []) ++ h) (setuid uid) ≡ 0)

-- The child of `system_core` becomes the shell only behind a `setgid` and a `setuid` to the asked-for
-- group and user, in this order and each with result 0, where these are not 0.
pub run_child-AsUser :
    (os : Os) (command : Bytes) (uid gid : ℕ) (h h' : History)
    → run_child os command uid gid h ≡ replaced h'
    → AsUser os command uid gid h h'
unfolding run_child exec_shell pure ◌>>=◌ choose call exit
run_child-AsUser os command uid gid h h' e = ground arith

abbrev pub InBounds : Drain → Type 0
InBounds d = (d.stdout_pos < buffer_size) × (d.stderr_pos < buffer_size)

read_pipe_bounds :
    (is_set : Bool) (held pos : ℕ) (is_open : Bool)
    → pos < buffer_size
    → (read_pipe is_set held pos is_open).0 < buffer_size
unfolding read_pipe
read_pipe_bounds is_set held pos is_open h = ground arith

-- Whatever the pipes report, positions inside the two buffers stay inside them.
pub drain-InBounds : (reports : List Ready) (d : Drain) → InBounds d → InBounds (drain reports d)
unfolding drain
drain-InBounds [] d h = h
drain-InBounds (timeout ∷ reports) d h = h
drain-InBounds (error ∷ reports) d h = ground (arith, drain-InBounds reports d h)
drain-InBounds (ready a b c f ∷ reports) d h = ground (
  arith,
  drain-InBounds reports
      (record {
        stdout_pos = (read_pipe a b d.stdout_pos d.stdout_open).0;
        stderr_pos = (read_pipe c f d.stderr_pos d.stderr_open).0;
        stdout_open = (read_pipe a b d.stdout_pos d.stdout_open).1;
        stderr_open = (read_pipe c f d.stderr_pos d.stderr_open).1;
      })
      (
        read_pipe_bounds a b d.stdout_pos d.stdout_open h.0,
        read_pipe_bounds c f d.stderr_pos d.stderr_open h.1,
      ),
)
