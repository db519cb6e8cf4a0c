-- ===== src/Progs/Floppy/Erase.antt =====
-- The floppy is erased only behind an archive that could be made.
use ipcop_alpine.Prelude.{ℕ, ◌≡◌, refl, Bool, false, true, not, [], ◌∷◌, ◌==◌, arith}
use ipcop_alpine.Cstring.{Bytes, codes, concat, starts_with}
use ipcop_alpine.Os.{Os, History, history_of}
use ipcop_alpine.Os.Footprint.{Makes, makes, Makes-mono, Makes-call}
use ipcop_alpine.Os.Guard.{Lock, IsGuarded, NotLocked, AnyCall, Guards, Guards-bind, Guards-key}
use ipcop_alpine.Setuid.Footprint.{require_setuid-Makes}
use ipcop_alpine.Progs.Restore.{command_line}
use ipcop_alpine.Progs.Fcdsl.{reopen_streams}
use ipcop_alpine.Progs.Fcdsl.Archive.{Setup-NotLocked}
use ipcop_alpine.Progs.Floppy.{
  Names, Suffixes, inc_name, test_name, tar_command, leave, testfloppywrite, copy_include,
  find_floppy, check_size, write_floppy, test_archive, backup, main,
}

unfoldable pub erases : Bytes → Bool
erases command = starts_with (codes "/bin/dd ") command

-- It waits for the archive to have been made on the hard disk, with status 0.
abbrev pub floppy_lock : Suffixes → Lock
floppy_lock x = record {
  key = tar_command (inc_name x) (test_name x);
  good = λ rc. rc == 0;
  locked = erases;
}

tar_plain : (include target : Bytes) → erases (tar_command include target) ≡ false
unfolding erases tar_command concat codes starts_with
tar_plain include target = refl

remove_plain :
    (dir : Bytes)
    → erases (command_line (codes "/bin/rm -rf " ∷ dir ∷ codes " > /dev/null 2> /dev/null" ∷ []))
      ≡ false
unfolding erases command_line concat codes starts_with
remove_plain dir = refl

echo_plain :
    (device : Bytes)
    → erases (command_line (codes "/bin/echo 'test' 2>/dev/null >" ∷ device ∷ [])) ≡ false
unfolding erases command_line concat codes starts_with
echo_plain device = refl

modprobe_plain : erases (codes "/sbin/modprobe floppy") ≡ false
unfolding erases codes starts_with
modprobe_plain = refl

tested_lem : (rc : ℕ) → not (rc == 0) ≡ false → (rc == 0) ≡ true
tested_lem rc e = ground arith

module _ (os : Os) (x : Suffixes) where
  abbrev lock : Lock
  lock = floppy_lock x

  module _ {A : Type 0} (t : Names) (n : ℕ) where
    leave-Makes : Makes (NotLocked lock) (leave os {A = A} t n)
    unfolding leave
    leave-Makes = search (makes, remove_plain) depth 20

    leave-Any : Makes AnyCall (leave os {A = A} t n)
    unfolding leave
    leave-Any = search makes depth 20

  copy_include-Makes : (t : Names) (file : Bytes) → Makes (NotLocked lock) (copy_include os t file)
  unfolding copy_include
  copy_include-Makes t file = search (makes, leave-Makes) depth 30

  testfloppywrite-Makes : (device : Bytes) → Makes (NotLocked lock) (testfloppywrite os device)
  unfolding testfloppywrite
  testfloppywrite-Makes device = search (makes, echo_plain) depth 20

  find_floppy-Makes : (t : Names) → Makes (NotLocked lock) (find_floppy os t)
  unfolding find_floppy
  find_floppy-Makes t = search (makes, leave-Makes, testfloppywrite-Makes, modprobe_plain) depth 30

  write_floppy-Any : (t : Names) (dir device : Bytes) → Makes AnyCall (write_floppy os t dir device)
  unfolding write_floppy check_size
  write_floppy-Any t dir device = search (makes, leave-Any) depth 40

  test_archive-Guards : (t : Names) (device : Bytes) → Guards os lock (test_archive os x t device)
  unfolding test_archive
  test_archive-Guards t device = Guards-bind os lock (Makes-call os _ tt) λ fd.
      Guards-bind os lock (search (makes, leave-Makes) depth 4) λ _.
        Guards-key os lock (λ rc. not (rc == 0)) (tar_plain _ _) tested_lem (λ rc. leave-Makes _ 1)
          (write_floppy-Any _ _ device)

  backup-Guards : Guards os lock (backup os x)
  unfolding backup
  backup-Guards = Guards-bind os lock (Makes-call os _ tt) λ space.
      Guards-bind os lock (search (makes, leave-Makes) depth 4) λ _.
        Guards-bind os lock (Makes-call os _ tt) λ available.
          Guards-bind os lock (search (makes, leave-Makes) depth 4) λ _.
            Guards-bind os lock (Makes-call os _ tt) λ fd.
              Guards-bind os lock (search (makes, leave-Makes) depth 4) λ _.
                Guards-bind os lock (copy_include-Makes _ _) λ _.
                  Guards-bind os lock (copy_include-Makes _ _) λ _.
                    Guards-bind os lock (search makes depth 4) λ _.
                      Guards-bind os lock (find_floppy-Makes _)
                        λ device. test_archive-Guards _ device

  main-Guards : Guards os lock (main os x)
  unfolding main reopen_streams
  main-Guards =
      Guards-bind os lock (Makes-mono (Setup-NotLocked lock) (require_setuid-Makes os))
        λ _. Guards-bind os lock (search makes depth 30) λ _. backup-Guards

  -- Whatever the system answers, and whatever mkstemp and mkdtemp put for the letters X of each of
  -- their templates: ipcopbackup runs dd, which erases the floppy, only after tar has made
  -- the archive of the same files on the hard disk with status 0.
  pub main-erase-IsGuarded :
      (h : History) → IsGuarded os lock h → IsGuarded os lock (history_of (main os x h))
  main-erase-IsGuarded = main-Guards.guards
