-- ===== src/Setuid/Log.antt =====
-- The debug log of source/core/progs/setuid.c: `rotate_debug_log` and `log_command_execution`.
pub mod Lines
use ipcop_alpine.Prelude.{
  ℕ, zero, suc, ◌*◌, Bool, not, ◌&&◌, List, [], ◌∷◌, ◌++◌, Option, none, some, ◌==◌, ltb,
  if◌then◌else◌, map,
}
use ipcop_alpine.Cstring.{Bytes, codes, concat, is_newline, is_nil, non_empty}
use ipcop_alpine.Number.{print_decimal}
use ipcop_alpine.Os.{
  Os, M, pure, ◌>>=◌, ◌>>◌, choose, when, for_each, call, act, stat, stat_size, rename,
  fopen_append, fprintf, fclose,
}
use ipcop_alpine.Setuid.{is_debug_enabled}

abbrev pub debug_log : Bytes
debug_log = codes "/var/log/ipcop/debug.log"

abbrev pub debug_log_max_size : ℕ
debug_log_max_size = 10 * 1024 * 1024

-- The fields between newlines, empty ones too; `got` is the field so far.
unfoldable pub newline_fields : Bytes → Bytes → List Bytes
unfolding is_newline
newline_fields got [] = got ∷ []
newline_fields got (c ∷ s) =
    let rest = newline_fields (if is_newline c then [] else got ++ c ∷ []) s in
    if is_newline c then got ∷ rest else rest

-- What `strtok(s, "\n")` gives one by one.
unfoldable pub output_lines : Bytes → List Bytes
unfolding newline_fields non_empty
output_lines s = non_empty (newline_fields [] s)

-- `    %s\n`
unfoldable pub indented : Bytes → Bytes
indented line = codes "    " ++ (line ++ b'\n' ∷ [])

-- The block for STDOUT or STDERR: the texts of its calls of fprintf. NULL is `none`.
unfoldable pub output_texts : Bytes → Option Bytes → List Bytes
unfolding output_lines indented
output_texts name none = (codes "  " ++ (name ++ codes ": (empty)\n")) ∷ []
output_texts name (some s) =
    if is_nil s
    then (codes "  " ++ (name ++ codes ": (empty)\n")) ∷ []
    else (codes "  " ++ (name ++ codes ":\n")) ∷ map indented (output_lines s)

-- What the entry says of the process: the time that strftime prints, and the three identifiers.
pub record Process : Type 0 where
  pub timebuf : Bytes
  pub pid : ℕ
  pub uid : ℕ
  pub euid : ℕ

-- An exit code, `none` for the -1 of a command that did not end by `exit`.
unfoldable pub exit_text : Option ℕ → Bytes
exit_text none = codes "-1"
exit_text (some code) = print_decimal code

unfoldable pub log_texts :
    Process → Bytes → Bytes → Option Bytes → Option Bytes → Option ℕ → List Bytes
unfolding output_texts exit_text
log_texts p progname command stdout_buf stderr_buf exit_code =
    concat (
      codes "["
      ∷ p.timebuf
      ∷ codes "] "
      ∷ progname
      ∷ codes "["
      ∷ print_decimal p.pid
      ∷ codes "] UID="
      ∷ print_decimal p.uid
      ∷ codes " EUID="
      ∷ print_decimal p.euid
      ∷ codes "\n"
      ∷ [])
    ∷ concat (codes "  CMD: " ∷ command ∷ codes "\n" ∷ [])
    ∷ (output_texts (codes "STDOUT") stdout_buf
        ++ (output_texts (codes "STDERR") stderr_buf
            ++ concat (codes "  EXIT: " ∷ exit_text exit_code ∷ codes "\n\n" ∷ []) ∷ []))

module _ (os : Os) where
  unfoldable pub rotate_debug_log : M (Unit {0})
  rotate_debug_log = do
    rc ← call os (stat debug_log)
    when (rc == 0) do
      size ← call os (stat_size debug_log)
      when (ltb debug_log_max_size size) (act os (rename debug_log (debug_log ++ codes ".old")))

  unfoldable pub log_command_execution :
      Process → Bytes → Bytes → Option Bytes → Option Bytes → Option ℕ → M (Unit {0})
  unfolding rotate_debug_log log_texts
  log_command_execution p progname command stdout_buf stderr_buf exit_code = do
    debug ← is_debug_enabled os
    when debug do
      rotate_debug_log
      opened ← call os (fopen_append debug_log)
      when (opened == 0) do
        for_each (log_texts p progname command stdout_buf stderr_buf exit_code)
            (λ text. act os (fprintf debug_log text))
        act os (fclose debug_log)
