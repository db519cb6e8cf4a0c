-- ===== src/Progs/Bkcfg/Mount.antt =====
-- What ipcopbkcfg reports of a mount: `exit(safe_system(command))` keeps the lowest byte of a status of
-- `waitpid`, and an exit code stands in the byte above it.
use ipcop_alpine.Prelude.{ℕ, ◌≡◌, ap, ◌*◌, false, ◌||◌, ◌∷◌, ◌==◌, arith}
use ipcop_alpine.Cstring.{Bytes, codes}
use ipcop_alpine.Number.{is_negative}
use ipcop_alpine.Os.{Os, History, exited, ◌>>=◌, when, exit, call, contents, pure, readlink, system}
use ipcop_alpine.Progs.Bkcfg.{is_root_disk, mount_command}
use ipcop_alpine.Progs.Bkcfg.Control.{mount}

abbrev pub root_link : Bytes
root_link = codes "/dev/disk/by-label/root"

-- Behind a link to the root disk that can be read and is not the device, the program ends with 0
-- whatever exit code the mount command has ended with, a failure included.
pub mount_status :
    (os : Os) (name : Bytes) (h : History) (code : ℕ)
    → (is_negative (os.status h (readlink root_link)) || (os.status h (readlink root_link) == 0))
      ≡ false
    → is_root_disk
        (os.status h (readlink root_link))
        (os.text (readlink root_link ∷ h) root_link)
        name
      ≡ false
    → os.status (readlink root_link ∷ h) (system (mount_command name)) ≡ 256 * code
    → mount os name h ≡ exited 0 (system (mount_command name) ∷ readlink root_link ∷ h)
unfolding mount ◌>>=◌ when exit call contents pure
mount_status os name h code len root rc =
    rw (len, root, rc)
      (ap (λ n. exited n (system (mount_command name) ∷ readlink root_link ∷ h)) (omega arith))
