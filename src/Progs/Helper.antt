-- ===== src/Progs/Helper.antt =====
-- The rest of source/core/progs/helper.c: `mysystem`, `mysystemhidden`, `exist_ethernet_device` and
-- `getmac`.
use ipcop_alpine.Prelude.{ℕ, Bool, false, not, ◌++◌, [], Option, none, some, ◌==◌}
use ipcop_alpine.Cstring.{
  Bytes, codes, is_nil, has_byte, snprintf, string_size, string_size_large, fgets_first, stripnl,
}
use ipcop_alpine.Kv.{success, failure}
use ipcop_alpine.Os.{
  Os, M, pure, ◌>>=◌, ◌>>◌, choose, when, call, act, contents, minus_one, system, access,
  fopen_read, fclose, fprintf,
}

module _ (os : Os) where
  -- `flog` is the name of the log behind it, `none` for NULL.
  log_running : Option Bytes → Bytes → Bool → M (Unit {0})
  log_running none text cr = pure tt
  log_running (some flog) text cr = do
    act os (fprintf flog (codes "Running command: " ++ (text ++ codes "\n")))
    when cr (
        act os (
          fprintf flog
            (codes "WARNING mysystem return value is always 0 when a CR is on command\n")))

  unfoldable pub mysystem : Option Bytes → Bytes → M ℕ
  unfolding log_running
  mysystem flog command = do
    log_running flog command (has_byte b'\n' command)
    call os (system (snprintf string_size_large command))

  unfoldable pub mysystemhidden : Option Bytes → Bytes → M ℕ
  unfolding log_running
  mysystemhidden flog command = do
    log_running flog (codes "HIDDEN") false
    call os (system (snprintf string_size_large (command ++ codes " >> /dev/null")))

  unfoldable pub exist_ethernet_device : Option Bytes → M ℕ
  exist_ethernet_device none = pure failure
  exist_ethernet_device (some device) = choose (is_nil device) (pure failure) do
    rc ← call os (access (snprintf string_size (codes "/sys/class/net/" ++ device)))
    choose (not (rc == minus_one)) (pure success) (pure failure)

  -- The file is closed only where it is empty.
  unfoldable pub getmac : Bytes → M Bytes
  getmac device = do
    let file = snprintf string_size (codes "/sys/class/net/" ++ (device ++ codes "/address"))
    opened ← call os (fopen_read file)
    choose (not (opened == 0)) (pure []) do
      text ← contents os file
      elim (fgets_first string_size text) [
        | some line ↦ pure (stripnl line)
        | none ↦ do act os (fclose file); pure []
      ]
