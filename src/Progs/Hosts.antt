-- ===== src/Progs/Hosts.antt =====
-- source/core/progs/rebuildhosts.c. SNAME is what its Makefile defines.
pub mod Lines
use ipcop_alpine.Prelude.{
  ℕ, Bool, true, false, not, ◌&&◌, ◌||◌, List, [], ◌∷◌, ◌++◌, Option, none, some, ◌==◌,
  if◌then◌else◌,
}
use ipcop_alpine.Cstring.{
  Bytes, codes, string_size, concat, text_of, strcmp_eq, all_in, is_nil, fgets_lines, strtok_tokens,
}
use ipcop_alpine.Kv.{Kv, success, find_kv_default}
use ipcop_alpine.Kv.File.{read_kv_from_file}
use ipcop_alpine.Valid.{valid_ip, letters_numbers}
use ipcop_alpine.Ethernet.{Ethernet, read_ethernet_settings}
use ipcop_alpine.Setuid.{require_setuid}
use ipcop_alpine.Os.{
  Os, M, pure, ◌>>=◌, ◌>>◌, choose, for_each, exit, crash, call, act, contents, system, fopen_read,
  fopen_write, fclose, fprintf,
}

-- The `-DSNAME` of source/core/progs/Makefile.
abbrev pub sname : Bytes
sname = codes "ipcop"

pub data HostsOption : Type 0 where
  nosighup verbose help unknown : HostsOption

unfoldable pub read_options : List HostsOption → Bool → M Bool
read_options [] flag = pure flag
read_options (nosighup ∷ options) flag = read_options options true
read_options (verbose ∷ options) flag = read_options options flag
read_options (help ∷ options) flag = exit 0
read_options (unknown ∷ options) flag = exit 1

abbrev pub hosts_list : Bytes
hosts_list = codes "/var/ipcop/main/hosts"

abbrev pub etc_hosts : Bytes
etc_hosts = codes "/etc/hosts"

-- `buffer[strlen(buffer) - 1] = 0`: the last byte goes, whatever it is.
-- On an empty string the source writes to the byte before the buffer; here the string stays empty.
unfoldable pub chop_last : Bytes → Bytes
chop_last [] = []
chop_last (c ∷ []) = []
chop_last (c ∷ d ∷ s) = c ∷ chop_last (d ∷ s)

-- What a line of the hosts list comes to: nothing, a read through NULL, or a line of /etc/hosts.
pub data HostLine : Type 0 where
  passed_over fault : HostLine
  printed : Bytes → HostLine

unfoldable pub host_text : Bytes → Bytes → Option Bytes → Bytes
host_text ip host none = concat (ip ∷ codes "\t" ∷ host ∷ codes "\n" ∷ [])
host_text ip host (some domain) =
    concat (ip ∷ codes "\t" ∷ host ∷ codes "." ∷ domain ∷ codes "\t" ∷ host ∷ codes "\n" ∷ [])

unfoldable pub valid_host : Bytes → Bool
valid_host = all_in (letters_numbers ++ codes "-")

unfoldable pub check_host : Bytes → Bytes → Option Bytes → HostLine
check_host ip host domain =
    if not (valid_ip ip)
    then passed_over
    else if not (valid_host host)
    then passed_over
    else printed (host_text ip host domain)

-- On the tokens of a line: active, address, host and domain. Where there is no first token, the
-- source compares NULL with "off".
unfoldable pub token_line : List Bytes → HostLine
token_line [] = fault
token_line (active ∷ []) = passed_over
token_line (active ∷ ip ∷ []) = passed_over
token_line (active ∷ ip ∷ host ∷ []) =
    if strcmp_eq active (codes "off") then passed_over else check_host ip host none
token_line (active ∷ ip ∷ host ∷ domain ∷ _) =
    if strcmp_eq active (codes "off") then passed_over else check_host ip host (some domain)

begins_with_comma : Bytes → Bool
begins_with_comma [] = false
begins_with_comma (c ∷ s) = c == b','

-- The body of the loop.
unfoldable pub host_line : Bytes → HostLine
unfolding begins_with_comma
host_line buffer =
    let text = chop_last buffer in
    if begins_with_comma text then passed_over else token_line (strtok_tokens text)

unfoldable pub own_line : Option Bytes → Bytes → Bytes → Bytes
own_line address hostname domainname =
    host_text (text_of address) hostname (if is_nil domainname then none else some domainname)

module _ (os : Os) where
  unfoldable pub write_host : HostLine → M (Unit {0})
  write_host passed_over = pure tt
  write_host fault = crash
  write_host (printed text) = act os (fprintf etc_hosts text)

  unfoldable pub rebuild : Bool → Ethernet → Bytes → Bytes → M (Unit {0})
  rebuild flag_nosighup e hostname domainname = do
    opened ← call os (fopen_read hosts_list)
    choose (not (opened == 0)) (exit 1) do
      written ← call os (fopen_write etc_hosts)
      choose (not (written == 0)) (do act os (fclose hosts_list); exit 1)
          do
            act os (fprintf etc_hosts (codes "127.0.0.1\tlocalhost\n"))
            act os (fprintf etc_hosts (own_line e.green_card.address hostname domainname))
            text ← contents os hosts_list
            for_each (fgets_lines string_size text) (λ line. write_host (host_line line))
            act os (fclose hosts_list)
            act os (fclose etc_hosts)
            choose flag_nosighup (act os (system (codes "rc-service dnsmasq restart")))
                (act os (system (codes "/usr/bin/killall -HUP dnsmasq")))
            exit 0

  unfoldable pub main : List HostsOption → M (Unit {0})
  main options = do
    require_setuid os
    flag ← read_options options false
    (rc, e) ← read_ethernet_settings os true
    (kv_rc, kv) ← read_kv_from_file os [] (codes "/var/ipcop/main/settings")
    choose (not (kv_rc == success)) (exit 1) (
        rebuild flag e (find_kv_default kv (codes "HOSTNAME") sname).1
          (find_kv_default kv (codes "DOMAINNAME") []).1)
