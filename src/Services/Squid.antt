-- ===== src/Services/Squid.antt =====
-- source/services/squid/progs/restartsquid.c: the lines of the IPsec tunnels, and the commands. The
-- rest of the program is in Control.
pub mod Control
pub mod Bypass
use ipcop_alpine.Prelude.{
  ℕ, zero, suc, Bool, true, false, not, ◌&&◌, ◌||◌, List, [], ◌∷◌, ◌++◌, Option, none, some, ◌==◌,
  ltb, leb, ◌-◌, ◌+◌, length, get_or, if◌then◌else◌,
}
use ipcop_alpine.Cstring.{
  Bytes, codes, concat, string_size, string_size_large, snprintf, strcmp_eq, has_byte, all_in,
  before, after, chop_newline, strsep_fields, fgets_lines, text_of,
}
use ipcop_alpine.Valid.{letters_numbers, valid_ip, valid_short_mask}
use ipcop_alpine.Ethernet.{Ethernet, Card}
use ipcop_alpine.Os.{
  Os, M, pure, ◌>>=◌, ◌>>◌, choose, when, exit, crash, call, act, contents, system, fopen_read,
  fclose,
}

unfoldable pub is_slash : ℕ → Bool
is_slash c = c == b'/'

-- What a line of the tunnels is for the proxy: nothing, a read through NULL, or a network.
pub data TunnelLine : Type 0 where
  skip fault : TunnelLine
  network : Bytes → Bytes → TunnelLine

-- The two pieces of "address/mask": a missing mask is NULL.
unfoldable pub mask_of : Bytes → Option Bytes
unfolding is_slash
mask_of s = if has_byte b'/' s then some (before is_slash (after is_slash s)) else none

unfoldable pub check_mask : Bytes → Option Bytes → TunnelLine
check_mask address none = fault
check_mask address (some mask) =
    if not (valid_ip mask) && not (valid_short_mask mask) then skip else network address mask

unfoldable pub check_network : Bytes → TunnelLine
unfolding check_mask mask_of is_slash
check_network s =
    let address = before is_slash s in
    if not (valid_ip address) then skip else check_mask address (mask_of s)

-- The tests on the fields, in their order.
unfoldable pub check_fields : List Bytes → TunnelLine
unfolding check_network
check_fields fields =
    if ltb (length fields) 3
    then skip
    else if not (all_in letters_numbers (get_or fields 2 []))
    then skip
    else if ltb (length fields) 25
    then skip
    else if not (strcmp_eq (get_or fields 4 []) (codes "net"))
    then skip
    else if not (strcmp_eq (get_or fields 1 []) (codes "on"))
    then skip
    else check_network (get_or fields 12 [])

unfoldable pub bypass_line : Bytes → TunnelLine
unfolding check_fields
bypass_line s = if ltb (length s) 25 then skip else check_fields (strsep_fields [] (chop_newline s))

unfoldable pub bypass_text : Bytes → Bytes → Bytes → Bytes
bypass_text device address mask = concat (
    codes "/usr/sbin/iptables -t nat -A SQUID -i "
    ∷ device
    ∷ codes " -p tcp -d "
    ∷ address
    ∷ codes "/"
    ∷ mask
    ∷ codes " --dport 80 -j RETURN"
    ∷ [])

unfoldable pub direct_text : Bytes → Bytes → Bytes
direct_text device destination = concat (
    codes "/usr/sbin/iptables -t nat -A SQUID -i "
    ∷ device
    ∷ codes " -p tcp -d "
    ∷ destination
    ∷ codes " --dport 80 -j RETURN"
    ∷ [])

-- PORT_PROXY_INTERCEPT is 82.
unfoldable pub redirect_text : Bytes → Bytes
redirect_text device = concat (
    codes "/usr/sbin/iptables -t nat -A SQUID -i "
    ∷ device
    ∷ codes " -p tcp --dport 80 -j REDIRECT --to-port 82"
    ∷ [])

abbrev pub ipsec_config : Bytes
ipsec_config = codes "/var/ipcop/ipsec/config"

module _ (os : Os) where
  -- `snprintf(buffer, STRING_SIZE - 1, ...) >= STRING_SIZE` refuses what is too long; `leave` is what is
  -- done then, and `run` whether the command is run.
  unfoldable pub checked_system : M (Unit {0}) → Bool → Bytes → M (Unit {0})
  checked_system leave run text =
      choose (leb string_size (length text)) leave
        (when run (act os (system (snprintf (string_size - 1) text))))

  -- Before the exit the file of the tunnels is closed.
  unfoldable pub add_bypass : Bool → Option Bytes → Bytes → Bytes → M (Unit {0})
  add_bypass asked device address mask = when asked (
      checked_system (do act os (fclose ipsec_config); exit 1) true
        (bypass_text (text_of device) address mask))

  unfoldable pub handle_bypass : Bool → Bool → Ethernet → TunnelLine → M (Unit {0})
  handle_bypass green blue e skip = pure tt
  handle_bypass green blue e fault = crash
  handle_bypass green blue e (network address mask) = do
    add_bypass green e.green_card.device address mask
    add_bypass blue e.blue_card.device address mask

  unfoldable pub handle_lines : Bool → Bool → Ethernet → List Bytes → M (Unit {0})
  handle_lines green blue e [] = act os (fclose ipsec_config)
  handle_lines green blue e (line ∷ lines) = do
    handle_bypass green blue e (bypass_line line)
    handle_lines green blue e lines

  unfoldable pub setdirectipsec : Bool → Bool → Ethernet → M (Unit {0})
  setdirectipsec green blue e = when (green || blue) do
    opened ← call os (fopen_read ipsec_config)
    when (opened == 0) do
      text ← contents os ipsec_config
      handle_lines green blue e (fgets_lines string_size_large text)

  -- The two rules of an interface: the destination may be unknown, and is then passed over.
  unfoldable pub set_transparent : Bool → Bytes → Bytes → M (Unit {0})
  set_transparent asked device destination = when asked do
    checked_system (exit 1) (ltb 0 (length destination)) (direct_text device destination)
    checked_system (exit 1) true (redirect_text device)
