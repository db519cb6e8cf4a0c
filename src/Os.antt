-- ===== src/Os.antt =====
-- What the programs ask of the operating system. A run is a history of calls, newest first, and a
-- program is a function of the history so far. The system itself is a parameter: it may answer any
-- call in any way, depending on all that was asked before. Only what the program hands to the
-- system is in the history; messages to the terminal are left out.
pub mod Trace
pub mod Returns
pub mod Exits
pub mod Footprint
pub mod Tidy
pub mod Guard
pub mod Temp
pub mod Yields
use ipcop_alpine.Prelude.{ℕ, ◌-◌, ◌^◌, Bool, true, false, List, [], ◌∷◌, Option, none, some, ◌==◌}
use ipcop_alpine.Cstring.{Bytes}

pub data Call : Type 0 where
  -- a command line for the shell, as `safe_system`, `unpriv_system` and `system` are given it
  system : Bytes → Call
  unpriv_system : Bytes → ℕ → ℕ → Call
  fopen_read fopen_write fopen_append flock_shared flock_exclusive flock_unlock fclose :
      Bytes → Call
  -- ownership and mode of an open settings file
  chown_web chmod_660 : Bytes → Call
  fprintf : Bytes → Bytes → Call
  getgrnam : Bytes → Call
  access unlink open_exclusive open_read read_file : Bytes → Call
  rename : Bytes → Bytes → Call
  -- the fields of the structures that `lstat` and `getpwnam` fill
  stat lstat lstat_mode lstat_uid lstat_gid getpwnam pw_uid pw_gid : Bytes → Call
  -- a process and a signal
  kill : ℕ → ℕ → Call
  chdir mkdtemp mkstemp statvfs : Bytes → Call
  chown : Bytes → ℕ → ℕ → Call
  -- a directory, a command whose output is read, and the name of the host
  mkdir popen_read pclose sethostname : Bytes → Call
  sync : Call
  -- the size of a file, in `stat` and `lstat`, and of the space on a partition, in `statvfs`
  stat_size stat_mode lstat_size statvfs_size : Bytes → Call
  -- the matches of a pattern, an open directory, and a link
  glob glob_pathc scandir readlink : Bytes → Call
  write : Bytes → Bytes → Call
  chmod : Bytes → ℕ → Call
  sleep : ℕ → Call
  syslog : Bytes → Call
  -- the calls of `initsetuid`
  signal_ignore signal_default close dup fstat setgid setuid : ℕ → Call
  getdtablesize get_errno open_null setrlimit_core setgroups_none : Call
  -- the calls of `system_core`
  pipe fork waitpid : Call
  close_pipes dup_pipes : Call
  execve : Bytes → Call

abbrev pub History : Type 0
History = List Call

-- `status` is the result of a call as a 32-bit pattern, and `text` what an open file holds.
pub record Os : Type 0 where
  pub status : History → Call → ℕ
  pub text : History → Bytes → Bytes

-- The result -1
abbrev pub minus_one : ℕ
minus_one = 2 ^ 32 - 1

-- How a piece of program ends: with a value, by `exit`, by a fault such as a read through NULL, or
-- by becoming another program.
pub data Out (A : Type 0) : Type 0 where
  done : A → History → Out A
  exited : ℕ → History → Out A
  crashed : History → Out A
  replaced : History → Out A

abbrev pub M : Type 0 → Type 0
M A = History → Out A

unfoldable pub pure : {A : Type 0} → A → M A
pure a h = done a h

infixl 5 ◌>>=◌ ◌>>◌
unfoldable pub ◌>>=◌ : {A B : Type 0} → M A → (A → M B) → M B
◌>>=◌ m f h = elim (m h) [
  | done a h' ↦ f a h'
  | exited n h' ↦ exited n h'
  | crashed h' ↦ crashed h'
  | replaced h' ↦ replaced h'
]

abbrev pub ◌>>◌ : {B : Type 0} → M (Unit {0}) → M B → M B
m >> k = m >>= λ _. k

unfoldable pub exit : {A : Type 0} → ℕ → M A
exit n h = exited n h

unfoldable pub crash : {A : Type 0} → M A
crash h = crashed h

-- `if (test) m`
unfoldable pub when : Bool → M (Unit {0}) → M (Unit {0})
unfolding pure
when true m = m
when false m = pure tt

unfoldable pub choose : {A : Type 0} → Bool → M A → M A → M A
choose true m k = m
choose false m k = k

unfoldable pub for_each : {A : Type 0} → List A → (A → M (Unit {0})) → M (Unit {0})
unfolding pure ◌>>=◌
for_each [] f = pure tt
for_each (x ∷ xs) f = f x >> for_each xs f

module _ (os : Os) where
  unfoldable pub call : Call → M ℕ
  call c h = done (os.status h c) (c ∷ h)

  -- A call whose result is not looked at.
  unfoldable pub act : Call → M (Unit {0})
  act c h = done tt (c ∷ h)

  unfoldable pub contents : Bytes → M Bytes
  contents file h = done (os.text h file) h

-- The history at the end.
abbrev pub history_of : {A : Type 0} → Out A → History
history_of (done a h) = h
history_of (exited n h) = h
history_of (crashed h) = h
history_of (replaced h) = h
