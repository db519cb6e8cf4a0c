-- ===== src/Progs/Ipsec.antt =====
-- source/core/progs/ipsecctrl.c: the lines of the tunnels, and the commands for them. The rest of the
-- program is in Control.
pub mod Control
pub mod Tunnels
pub mod Endings
use ipcop_alpine.Prelude.{
  ℕ, Bool, true, false, not, ◌&&◌, ◌||◌, List, [], ◌∷◌, ◌++◌, Option, none, some, ◌==◌, ltb, leb,
  ◌+◌, ◌-◌, length, get_or, if◌then◌else◌,
}
use ipcop_alpine.Cstring.{
  Bytes, codes, concat, string_size, snprintf, strcmp_eq, all_in, chop_newline, strsep_fields,
  strtok_tokens, fgets_lines,
}
use ipcop_alpine.Number.{print_decimal}
use ipcop_alpine.Valid.{letters_numbers, valid_ip, valid_device}
use ipcop_alpine.Ethernet.{Ethernet}
use ipcop_alpine.Os.{
  Os, M, pure, ◌>>=◌, ◌>>◌, choose, when, crash, call, act, contents, system, access, fopen_read,
  fclose,
}

-- What `decode_line` fills in.
pub record Tunnel : Type 0 where
  pub key : Bytes
  pub name : Bytes
  pub type : Bytes
  pub interface : Bytes

-- The tests behind the loop, on a name that is there and `count` fields.
unfoldable pub check_tunnel : ℕ → Tunnel → Option Tunnel
check_tunnel count t =
    if not (count == 30)
    then none
    else if not (all_in letters_numbers t.name)
    then none
    else if not (strcmp_eq t.type (codes "host") || strcmp_eq t.type (codes "net"))
    then none
    else if not (strcmp_eq t.interface (codes "RED") || strcmp_eq t.interface (codes "BLUE"))
    then none
    else some t

-- The fields of the line: the loop ends at a second field other than "on".
unfoldable pub decode_fields : List Bytes → Option Tunnel
unfolding check_tunnel
decode_fields (key ∷ on ∷ name ∷ more) =
    if not (strcmp_eq on (codes "on"))
    then none
    else check_tunnel (length more + 3)
        (record { key = key; name = name; type = get_or more 1 []; interface = get_or more 24 [] })
decode_fields _ = none

-- `decode_line`, with its result 0 as `none`.
unfoldable pub decode_line : Bytes → Option Tunnel
unfolding decode_fields
decode_line s = decode_fields (strsep_fields [] (chop_newline s))

-- The strings that the rounds of `getline` leave: no line is cut.
unfoldable pub getline_lines : Bytes → List Bytes
getline_lines text = fgets_lines (length text + 2) text

abbrev pub ipsec_config : Bytes
ipsec_config = codes "/var/ipcop/ipsec/config"

-- `enable_red` and `enable_blue`: 0 where the interface is not used, 1 where it is in error, 2 where it
-- is good.
pub record Scan : Type 0 where
  pub enable_red : ℕ
  pub enable_blue : ℕ

unfoldable pub scan_red : Ethernet → Tunnel → ℕ → ℕ
scan_red e t n =
    if (n == 0) && (strcmp_eq t.interface (codes "RED") && valid_device e.red_device)
    then n + 2
    else n

unfoldable pub scan_blue : Ethernet → Tunnel → ℕ → ℕ
scan_blue e t n =
    if (n == 0) && strcmp_eq t.interface (codes "BLUE")
    then (if e.blue_card.count == 0 then n + 1 else n + 2)
    else n

-- The loop that searches the interfaces.
unfoldable pub scan_lines : Ethernet → List Bytes → Scan → Scan
unfolding scan_red scan_blue
scan_lines e [] s = s
scan_lines e (line ∷ lines) s = elim (decode_line line) [
  | none ↦ scan_lines e lines s
  | some t ↦
      scan_lines e lines (record {
        enable_red = scan_red e t s.enable_red;
        enable_blue = scan_blue e t s.enable_blue;
      })
]

abbrev pub command_line : List Bytes → Bytes
command_line pieces = snprintf (string_size - 1) (concat pieces)

-- What a command that is not verbose ends with.
unfoldable pub quiet_text : Bool → Bytes
quiet_text chatty = if chatty then [] else codes ">/dev/null"

unfoldable pub replace_command : Bool → Bytes → Bytes
replace_command chatty name =
    command_line
      (codes "/usr/sbin/ipsec auto --replace " ∷ name ∷ codes " " ∷ quiet_text chatty ∷ [])

unfoldable pub up_command : Bool → Bytes → Bytes
up_command chatty name =
    command_line (
      codes "/usr/sbin/ipsec auto --asynchronous --up " ∷ name ∷ codes " " ∷ quiet_text chatty ∷ [])

unfoldable pub down_command : Bool → Bytes → Bytes
down_command chatty name =
    command_line (codes "/usr/sbin/ipsec auto --down " ∷ name ∷ codes " " ∷ quiet_text chatty ∷ [])

unfoldable pub delete_command : Bool → Bytes → Bytes
delete_command chatty name =
    command_line
      (codes "/usr/sbin/ipsec auto --delete " ∷ name ∷ codes " " ∷ quiet_text chatty ∷ [])

unfoldable pub attach_command : Bool → Bytes → ℕ → ℕ → Bytes
attach_command chatty device offset alias = command_line (
    codes "/usr/sbin/ipsec tncfg --attach --virtual ipsec"
    ∷ print_decimal (offset + alias)
    ∷ codes " --physical "
    ∷ device
    ∷ codes ":"
    ∷ print_decimal alias
    ∷ codes " "
    ∷ quiet_text chatty
    ∷ [])

module _ (os : Os) (chatty : Bool) where
  unfoldable pub turn_connection_on : Bytes → Bytes → M (Unit {0})
  turn_connection_on name type = do
    act os (
        system (
          if chatty
          then codes "/usr/sbin/ipsec auto --rereadsecrets"
          else codes "/usr/sbin/ipsec auto --rereadsecrets >/dev/null"))
    act os (system (replace_command chatty name))
    when (strcmp_eq type (codes "net")) (act os (system (up_command chatty name)))

  unfoldable pub turn_connection_off : Bytes → M (Unit {0})
  turn_connection_off name = do
    act os (system (down_command chatty name))
    act os (system (delete_command chatty name))
    act os (system (codes "/usr/sbin/ipsec auto --rereadsecrets >/dev/null"))

  abbrev pub aliases_file : Bytes
  aliases_file = codes "/var/ipcop/ethernet/aliases"

  -- The loop over the aliases, from the number `alias` on. A bad address leaves the file open.
  unfoldable pub attach_aliases : Bytes → ℕ → ℕ → List Bytes → M (Unit {0})
  attach_aliases device offset alias [] = act os (fclose aliases_file)
  attach_aliases device offset alias (line ∷ lines) =
      let fields = strtok_tokens (chop_newline line) in
      let ip = get_or fields 0 [] in
      let enabled = get_or fields 1 [] in
      choose (leb 16 (offset + alias)) (act os (fclose aliases_file)) (
        choose (ltb (length fields) 2) (attach_aliases device offset alias lines) (
          choose (not (valid_ip ip)) (pure tt) (
            choose (strcmp_eq enabled (codes "on"))
              (do
                act os (system (attach_command chatty device offset alias))
                attach_aliases device offset (alias + 1) lines)
              (attach_aliases device offset alias lines))))

  -- `strcmp` reads through a `red_type` that was not set.
  unfoldable pub is_static : Ethernet → M Bool
  is_static e = elim e.red_type [
    | none ↦ crash
    | some type ↦ pure (strcmp_eq type (codes "STATIC"))
  ]

  unfoldable pub add_alias_interfaces : Ethernet → ℕ → M (Unit {0})
  add_alias_interfaces e offset = when (valid_device e.red_device) do
    static ← is_static e
    when static do
      opened ← call os (fopen_read aliases_file)
      when (opened == 0) do
        text ← contents os aliases_file
        attach_aliases e.red_device offset 0 (fgets_lines string_size text)
