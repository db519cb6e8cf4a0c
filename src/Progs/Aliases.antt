-- ===== src/Progs/Aliases.antt =====
-- source/core/progs/setaliases.c. The command line is the list of what `getopt_long` returns.
pub mod Commands
use ipcop_alpine.Prelude.{
  ℕ, ◌-◌, Bool, true, false, not, ◌&&◌, ◌||◌, List, [], ◌∷◌, Option, none, some, ◌==◌,
  if◌then◌else◌,
}
use ipcop_alpine.Cstring.{
  Bytes, codes, string_size, snprintf, concat, text_of, strcmp_eq, chop_newline, strsep_fields,
  fgets_lines,
}
use ipcop_alpine.Valid.{valid_ip, valid_short_mask}
use ipcop_alpine.Ethernet.{Ethernet, read_ethernet_settings}
use ipcop_alpine.Setuid.{require_setuid}
use ipcop_alpine.Os.{
  Os, M, pure, ◌>>=◌, ◌>>◌, choose, for_each, exit, call, act, contents, system, fopen_read, fclose,
}

pub data AliasOption : Type 0 where
  verbose help unknown : AliasOption

abbrev pub aliases_file : Bytes
aliases_file = codes "/var/ipcop/ethernet/aliases"

-- A command line as it stands in the buffer.
abbrev pub command_line : List Bytes → Bytes
command_line pieces = snprintf (string_size - 1) (concat pieces)

unfoldable pub flush_command : Option Bytes → Bytes
flush_command device =
    command_line (codes "/sbin/ip addr flush label " ∷ text_of device ∷ codes ":alias" ∷ [])

unfoldable pub add_command : Bytes → Bytes → Bytes
add_command ip device = command_line (
    codes "/sbin/ip addr add "
    ∷ ip
    ∷ codes " dev "
    ∷ device
    ∷ codes " label "
    ∷ device
    ∷ codes ":alias"
    ∷ [])

unfoldable pub add_masked_command : Bytes → Bytes → Bytes → Bytes
add_masked_command ip netmask device = command_line (
    codes "/sbin/ip addr add "
    ∷ ip
    ∷ codes "/"
    ∷ netmask
    ∷ codes " dev "
    ∷ device
    ∷ codes " label "
    ∷ device
    ∷ codes ":alias"
    ∷ [])

unfoldable pub arping_command : Bytes → Option Bytes → Bytes
arping_command ip device = command_line (
    codes "/usr/bin/arping -q -c 1 -U -I "
    ∷ text_of device
    ∷ codes " -s "
    ∷ ip
    ∷ codes " "
    ∷ ip
    ∷ [])

unfoldable pub is_mask : Bytes → Bool
is_mask netmask = valid_ip netmask || valid_short_mask netmask

module _ (os : Os) where
  -- The option loop.
  read_options : List AliasOption → M (Unit {0})
  read_options [] = pure tt
  read_options (verbose ∷ options) = read_options options
  read_options (help ∷ options) = exit 0
  read_options (unknown ∷ options) = exit 1

  -- `exit`, with the handler that closes the file.
  unfoldable pub leave : ℕ → M (Unit {0})
  leave n = do act os (fclose aliases_file); exit n

  -- The body of the loop, on the fields of a line.
  unfoldable pub add_alias : Ethernet → List Bytes → M (Unit {0})
  add_alias e (ip ∷ enabled ∷ comment ∷ netmask ∷ _) =
      choose (not (strcmp_eq enabled (codes "on"))) (pure tt) (
        choose (not (valid_ip ip)) (leave 1) do
          choose (not (is_mask netmask)) (act os (system (add_command ip e.red_device)))
              (act os (system (add_masked_command ip netmask e.red_device)))
          act os (system (arping_command ip e.red_card.device)))
  add_alias e _ = leave 1

  unfoldable pub set_aliases : Ethernet → M (Unit {0})
  set_aliases e = do
    act os (system (flush_command e.red_card.device))
    choose (e.red_card.count == 0 || not e.red_active) (exit 0) do
      opened ← call os (fopen_read aliases_file)
      choose (not (opened == 0)) (exit 1) do
        text ← contents os aliases_file
        for_each (fgets_lines string_size text)
            (λ line. add_alias e (strsep_fields [] (chop_newline line)))
        leave 0

  unfoldable pub main : List AliasOption → M (Unit {0})
  unfolding read_options
  main options = do
    require_setuid os
    read_options options
    (rc, e) ← read_ethernet_settings os true
    set_aliases e
