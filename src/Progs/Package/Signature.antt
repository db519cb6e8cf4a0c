-- ===== src/Progs/Package/Signature.antt =====
-- A package is unpacked and set up only behind the check of its signature.
use ipcop_alpine.Prelude.{
  ℕ, ◌≡◌, refl, Bool, true, false, not, ◌||◌, ◌==◌, arith, Option-cases, inl, inr,
}
use ipcop_alpine.Cstring.{Bytes, codes, concat, starts_with, string_size, snprintf}
use ipcop_alpine.Os.{Os, History, when, history_of}
use ipcop_alpine.Os.Footprint.{
  Makes, makes, Makes-bind, Makes-act, Makes-call, Makes-when, Makes-exit, Makes-pure, Makes-crash,
}
use ipcop_alpine.Os.Guard.{Lock, IsGuarded, NotLocked, AnyCall, Guards, Guards-bind, Guards-key}
use ipcop_alpine.Progs.Package.{
  PackageFlags, shift_8, remove_command, logger_command, echo_command, gpg_command, signature_of,
  signature_name, ourexit, check_space, use_package, install_package, check_package,
}

-- The commands that wait for the check: what tar unpacks, and what is run from a directory that
-- `mkdtemp` makes of "/var/patches/install_XXXXXX".
unfoldable pub handles_package : Bytes → Bool
handles_package command =
    starts_with (codes "/bin/tar ") command || starts_with (codes "/var/patches/install_") command

-- They wait for gpg to end with a status whose upper bytes are 0.
abbrev pub signature_lock : Bytes → Bytes → Lock
signature_lock dir upgrade = record {
  key = gpg_command dir upgrade;
  good = λ rc. shift_8 rc == 0;
  locked = handles_package;
}

module _ (dir : Bytes) where
  remove_plain : handles_package (remove_command dir) ≡ false
  unfolding handles_package remove_command codes starts_with
  remove_plain = refl

  logger_plain : (err ret : ℕ) → handles_package (logger_command err ret) ≡ false
  unfolding handles_package logger_command concat codes starts_with
  logger_plain err ret = refl

  echo_plain : (err : ℕ) → handles_package (echo_command err) ≡ false
  unfolding handles_package echo_command concat codes starts_with
  echo_plain err = refl

  chown_plain :
      handles_package (snprintf string_size (codes "chown nobody:nobody /var/patches/error"))
      ≡ false
  unfolding handles_package codes starts_with
  chown_plain = refl

  gpg_plain : (upgrade : Bytes) → handles_package (gpg_command dir upgrade) ≡ false
  unfolding handles_package gpg_command concat codes starts_with
  gpg_plain upgrade = refl

verified_lem : (rc : ℕ) → not (shift_8 rc == 0) ≡ false → (shift_8 rc == 0) ≡ true
verified_lem rc e = ground arith

module _ (os : Os) (dir : Bytes) (f : PackageFlags) where
  abbrev lock : Lock
  lock = signature_lock dir f.upgrade_filename

  ourexit-Makes :
      {A : Type 0} (created : Bool) (ret err : ℕ)
      → Makes (NotLocked lock) (ourexit os dir {A = A} created ret err)
  unfolding ourexit
  ourexit-Makes created ret err =
      Makes-bind
        (Makes-when _ (Makes-bind (Makes-act os _ tt) λ _. Makes-act os _ (remove_plain dir)))
        λ _.
          Makes-bind
            (Makes-when _ (
              Makes-bind (Makes-act os _ (logger_plain dir err ret)) λ _.
                Makes-bind (Makes-act os _ (echo_plain dir err))
                  λ _. Makes-act os _ (chown_plain dir)))
            λ _. Makes-exit err

  check_space-Makes : (file : Bytes) → Makes (NotLocked lock) (check_space os dir file)
  unfolding check_space
  check_space-Makes file = search (makes, ourexit-Makes) depth 20

  ourexit-Any :
      {A : Type 0} (created : Bool) (ret err : ℕ)
      → Makes AnyCall (ourexit os dir {A = A} created ret err)
  unfolding ourexit
  ourexit-Any created ret err = search makes depth 20

  use_package-Any : (signature : Bytes) → Makes AnyCall (use_package os dir f signature)
  unfolding use_package install_package
  use_package-Any signature = search (makes, ourexit-Any) depth 40

  signature_name-Makes : (file : Bytes) → Makes (NotLocked lock) (signature_name os dir file)
  unfolding signature_name
  signature_name-Makes file = elim (Option-cases (signature_of file)) [
    | inl missing ↦ rw (missing, signature_name) Makes-crash
    | inr (name, found) ↦ rw (found, signature_name) (Makes-pure name)
  ]

  check_package-Guards : Guards os lock (check_package os dir f)
  unfolding check_package
  check_package-Guards =
      let refuse : (err : ℕ) (b : Bool)
          → Makes (NotLocked lock) (when b (ourexit os dir false 0 err)) =
        λ err b. Makes-when b (ourexit-Makes false 0 err) in
      Guards-bind os lock (refuse 1 _) λ _. Guards-bind os lock (refuse 1 _) λ _.
        Guards-bind os lock (signature_name-Makes _) λ signature.
          Guards-bind os lock (check_space-Makes _) λ _.
            Guards-bind os lock (Makes-call os _ tt) λ made. Guards-bind os lock (refuse 2 _) λ _.
              Guards-key os lock (λ rc. not (shift_8 rc == 0)) (gpg_plain dir _) verified_lem
                (λ rc. ourexit-Makes true (shift_8 rc) 3) (use_package-Any _)

  -- Whatever the system answers: on a run of installpackage from its checks on, every tar, and every
  -- command from a directory that mkdtemp made, so also the setup script, is run only after gpg has
  -- decrypted the package with a status whose upper bytes are 0.
  pub check_package-IsGuarded :
      (h : History)
      → IsGuarded os lock h
      → IsGuarded os lock (history_of (check_package os dir f h))
  check_package-IsGuarded = check_package-Guards.guards
