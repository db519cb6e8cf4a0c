-- ===== src/Progs/Signal.antt =====
-- `mysignalpidfile` of source/core/progs/helper.c.
pub mod Safety
use ipcop_alpine.Prelude.{ℕ, Bool, true, false, not, ◌||◌, ◌==◌, leb, take, ◌-◌}
use ipcop_alpine.Cstring.{Bytes, string_size}
use ipcop_alpine.Kv.{success, failure}
use ipcop_alpine.Number.{is_negative, atoi, strtol_errno}
use ipcop_alpine.Os.{
  Os, M, pure, ◌>>=◌, ◌>>◌, choose, call, act, contents, open_read, read_file, fclose, kill,
  minus_one,
}

abbrev pub sigterm : ℕ
sigterm = 15

-- The source does not end the buffer by a NUL; the text is taken to end where `read` stopped.
module _ (os : Os) where
  unfoldable pub mysignalpidfile : Bytes → ℕ → M ℕ
  mysignalpidfile pidfile signal = do
    fd ← call os (open_read pidfile)
    choose (fd == minus_one) (pure failure) do
      rc ← call os (read_file pidfile)
      text ← contents os pidfile
      act os (fclose pidfile)
      choose (rc == minus_one) (pure failure) do
        let buffer = take (string_size - 1) text
        let pid = atoi buffer
        choose (strtol_errno buffer || (is_negative pid || leb pid 1)) (pure failure) do
          sent ← call os (kill pid signal)
          choose (sent == minus_one) (pure failure) (pure success)
