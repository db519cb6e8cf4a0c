-- ===== src/Progs/Fcdsl/Archive.antt =====
-- The files of the fcdsl driver are unpacked over the system only behind a test of their archive.
use ipcop_alpine.Prelude.{ℕ, ◌≡◌, refl, Bool, false, true, not, [], ◌∷◌, ◌==◌, arith}
use ipcop_alpine.Cstring.{Bytes, codes, concat, starts_with}
use ipcop_alpine.Os.{Os, Call, History, history_of}
use ipcop_alpine.Os.Footprint.{Makes, makes, Makes-mono, Makes-call}
use ipcop_alpine.Os.Guard.{Lock, IsGuarded, NotLocked, AnyCall, Guards, Guards-bind, Guards-key}
use ipcop_alpine.Setuid.Footprint.{Setup, require_setuid-Makes}
use ipcop_alpine.Progs.Restore.{command_line}
use ipcop_alpine.Progs.Fcdsl.{
  tmpdir, tmpdir_template, test_command, reopen_streams, leave, install_modules, main, install,
}

-- What tar unpacks over the root directory.
unfoldable pub overwrites : Bytes → Bool
overwrites command = starts_with (codes "/bin/tar -C / ") command

abbrev pub archive_lock : Bytes → Lock
archive_lock suffix = record {
  key = test_command (tmpdir suffix);
  good = λ rc. rc == 0;
  locked = overwrites;
}

test_plain : (suffix : Bytes) → overwrites (test_command (tmpdir suffix)) ≡ false
unfolding overwrites test_command concat codes starts_with
test_plain suffix = refl

remove_plain : (dir : Bytes) → overwrites (command_line (codes "/bin/rm -rf " ∷ dir ∷ [])) ≡ false
unfolding overwrites command_line concat codes starts_with
remove_plain dir = refl

tested_lem : (rc : ℕ) → not (rc == 0) ≡ false → (rc == 0) ≡ true
tested_lem rc e = ground arith

pub Setup-NotLocked : (l : Lock) (c : Call) → Setup c → NotLocked l c
Setup-NotLocked l (Call.system _) s = elim s [ ]
Setup-NotLocked l _ s = tt

module _ (os : Os) (suffix : Bytes) where
  abbrev lock : Lock
  lock = archive_lock suffix

  leave-Makes : (dir : Bytes) (n : ℕ) → Makes (NotLocked lock) (leave os {A = Unit {0}} dir n)
  unfolding leave
  leave-Makes dir n = search (makes, remove_plain) depth 20

  leave-Any : (dir : Bytes) (n : ℕ) → Makes AnyCall (leave os {A = Unit {0}} dir n)
  unfolding leave
  leave-Any dir n = search makes depth 20

  reopen_streams-Makes :
      Makes (NotLocked lock) (reopen_streams os (leave os {A = Unit {0}} tmpdir_template 1))
  unfolding reopen_streams
  reopen_streams-Makes = search (makes, leave-Makes) depth 30

  install_modules-Any : Makes AnyCall (install_modules os (tmpdir suffix))
  unfolding install_modules
  install_modules-Any = search (makes, leave-Any) depth 20

  main-Guards : Guards os lock (main os suffix)
  unfolding main install
  main-Guards =
      Guards-bind os lock (Makes-mono (Setup-NotLocked lock) (require_setuid-Makes os)) λ _.
        Guards-bind os lock reopen_streams-Makes λ _.
          Guards-bind os lock (Makes-call os _ tt) λ made.
            Guards-bind os lock (search (makes, leave-Makes) depth 4) λ _.
              Guards-key os lock (λ rc. not (rc == 0)) (test_plain suffix) tested_lem
                (λ rc. leave-Makes _ 1) install_modules-Any

  -- Whatever the system answers: installfcdsl unpacks files over the root directory only after the same
  -- archive has been unpacked into its temporary directory with status 0.
  pub main-unpack-IsGuarded :
      (h : History) → IsGuarded os lock h → IsGuarded os lock (history_of (main os suffix h))
  main-unpack-IsGuarded = main-Guards.guards
