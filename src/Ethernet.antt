-- ===== src/Ethernet.antt =====
-- `read_ethernet_settings` of source/core/progs/helper.c: the network cards by colour, and RED.
pub mod Laws
pub mod RedType
use ipcop_alpine.Prelude.{
  ℕ, ◌+◌, Bool, true, false, not, ◌||◌, List, [], ◌∷◌, ◌++◌, Option, none, some, ◌==◌, ltb,
  if◌then◌else◌,
}
use ipcop_alpine.Cstring.{Bytes, codes, string_size, snprintf, fgets_first, stripnl}
use ipcop_alpine.Kv.{Kv, success, failure, find_kv, find_kv_default}
use ipcop_alpine.Kv.File.{read_kv_from_file}
use ipcop_alpine.Number.{is_negative, atoi}
use ipcop_alpine.Valid.{valid_device}
use ipcop_alpine.Os.{
  Os, M, pure, ◌>>=◌, ◌>>◌, choose, exit, call, act, contents, access, fopen_read, fclose,
  minus_one,
}

-- `ipcop_colours`; NONE is `unassigned`.
pub data Colour : Type 0 where
  green red blue orange unassigned : Colour

-- `ipcop_colours_text`
unfoldable pub colour_text : Colour → Bytes
colour_text green = codes "GREEN"
colour_text red = codes "RED"
colour_text blue = codes "BLUE"
colour_text orange = codes "ORANGE"
colour_text unassigned = codes "----"

unfoldable pub is_red : Colour → Bool
is_red red = true
is_red _ = false

-- The row of one colour in `struct ethernet_s`, at index 1: MAX_NETWORK_COLOUR is 1. A pointer that
-- was not set is `none`.
pub record Card : Type 0 where
  pub count : ℕ
  pub device : Option Bytes
  pub address : Option Bytes
  pub netmask : Option Bytes
  pub netaddress : Option Bytes
  pub driver : Option Bytes

abbrev pub no_card : Card
no_card = record {
  count = 0;
  device = none;
  address = none;
  netmask = none;
  netaddress = none;
  driver = none;
}

pub record Ethernet : Type 0 where
  pub green_card : Card
  pub red_card : Card
  pub blue_card : Card
  pub orange_card : Card
  pub red_type : Option Bytes
  pub red_address : Bytes
  pub red_device : Bytes
  pub red_active : Bool
  pub default_gateway : Bytes

-- The row of NONE is zapped, and nothing is written to it.
abbrev pub card : Ethernet → Colour → Card
card e green = e.green_card
card e red = e.red_card
card e blue = e.blue_card
card e orange = e.orange_card
card e unassigned = no_card

abbrev set_card : Ethernet → Colour → Card → Ethernet
set_card e green k = record e { green_card = k }
set_card e red k = record e { red_card = k }
set_card e blue k = record e { blue_card = k }
set_card e orange k = record e { orange_card = k }
set_card e unassigned k = e

abbrev pub zapped : Ethernet
zapped = record {
  green_card = no_card;
  red_card = no_card;
  blue_card = no_card;
  orange_card = no_card;
  red_type = none;
  red_address = [];
  red_device = [];
  red_active = false;
  default_gateway = [];
}

-- The key of a setting, such as GREEN_1_ADDRESS.
unfoldable pub key_of : Colour → Bytes → Bytes
key_of colour eth_key = snprintf string_size (colour_text colour ++ codes "_1_" ++ eth_key)

-- `read_ethernet_key` on a present key, or on RED, where a missing one is empty; `none` is its
-- failure, where `exitonerror` makes it exit.
unfoldable pub read_ethernet_key : Kv → Colour → Bytes → Option Bytes
unfolding is_red
read_ethernet_key kv colour eth_key = elim (find_kv kv (key_of colour eth_key)) [
  | some value ↦ some value
  | none ↦ if is_red colour then some [] else none
]

-- The card of a colour, and whether all keys that it needs are there. A failure leaves the rest of
-- the row unset. The driver may be missing.
unfoldable pub read_card : Kv → Colour → Card → Card × Bool
read_card kv colour k =
    let none_device : Card × Bool = (k, false) in
    elim (read_ethernet_key kv colour (codes "DEV")) [
      | none ↦ none_device
      | some device ↦ elim (read_ethernet_key kv colour (codes "ADDRESS")) [
        | none ↦ (record k { device = some device }, false)
        | some address ↦ elim (read_ethernet_key kv colour (codes "NETMASK")) [
          | none ↦ (record k { device = some device; address = some address }, false)
          | some netmask ↦ elim (read_ethernet_key kv colour (codes "NETADDRESS")) [
            | none ↦ (
              record k { device = some device; address = some address; netmask = some netmask },
              false,
            )
            | some netaddress ↦ (
              record k {
                device = some device;
                address = some address;
                netmask = some netmask;
                netaddress = some netaddress;
                driver = read_ethernet_key kv colour (codes "DRIVER");
              },
              true,
            )
          ]
        ]
      ]
    ]

-- The row of a colour with `n` cards, and whether the loop goes on.
unfoldable pub read_row : Kv → Colour → ℕ → Card × Bool
read_row kv colour n =
    let k : Card = record no_card { count = n } in
    if is_negative n || ltb 1 n
    then (k, false)
    else if n == 0
    then (k, true)
    else read_card kv colour k

-- The body of the loop over the colours.
unfoldable pub read_colour : Kv → Colour → Card × Bool
read_colour kv colour =
    let key = snprintf string_size (colour_text colour ++ codes "_COUNT") in
    read_row kv colour (atoi (find_kv_default kv key (codes "0")).1)

-- The loop over the colours. It stops at the first row that fails.
unfoldable pub read_colours : Kv → List Colour → Ethernet → Ethernet × Bool
read_colours kv [] e = (e, true)
read_colours kv (colour ∷ colours) e =
    let (k, good) = read_colour kv colour in
    let rest = read_colours kv colours (set_card e colour k) in
    if good then rest else (set_card e colour k, false)

abbrev pub all_colours : List Colour
all_colours = green ∷ red ∷ blue ∷ orange ∷ []

-- What `fgets` and `stripnl` make of a one-line file: the buffer keeps its value at the end of file.
unfoldable pub first_line : Bytes → Bytes → Bytes
first_line value text = elim (fgets_first string_size text) [
  | some line ↦ stripnl line
  | none ↦ value
]

module _ (os : Os) where
  -- A failure: exit, or return with what was read so far.
  unfoldable pub give_up : Bool → Ethernet → M (ℕ × Ethernet)
  give_up exitonerror e = choose exitonerror (exit 1) (pure (1, e))

  -- A one-line file of the RED connection, where it is there. `value` is what the buffer holds.
  unfoldable pub red_file : Bytes → Bytes → M (Option Bytes)
  red_file file value = do
    opened ← call os (fopen_read file)
    choose (not (opened == 0)) (pure none)
        do text ← contents os file; act os (fclose file); pure (some (first_line value text))

  -- The colours and the connection type, from the settings.
  unfoldable pub finish_settings : Bool → Kv → Ethernet → M (ℕ × Ethernet)
  finish_settings exitonerror kv e =
      let (e', good) = read_colours kv all_colours e in
      choose (not good) (give_up exitonerror e')
        (pure (0, record e' { red_type = read_ethernet_key kv red (codes "TYPE") }))

  unfoldable pub finish_red : Bool → Kv → Ethernet → Option Bytes → M (ℕ × Ethernet)
  finish_red exitonerror kv e none = finish_settings exitonerror kv (record e { red_device = [] })
  finish_red exitonerror kv e (some iface) =
      choose (not (valid_device iface)) (give_up exitonerror e)
        (finish_settings exitonerror kv (record e { red_device = iface }))

  unfoldable pub read_ethernet_settings : Bool → M (ℕ × Ethernet)
  read_ethernet_settings exitonerror = do
    (rc, kv) ← read_kv_from_file os [] (codes "/var/ipcop/ethernet/settings")
    choose (not (rc == success)) (give_up exitonerror zapped) do
      let gateway = (find_kv_default kv (codes "DEFAULT_GATEWAY") []).1
      active ← call os (access (codes "/var/ipcop/red/active"))
      local ← red_file (codes "/var/ipcop/red/local-ipaddress") gateway
      let address : Bytes = elim local [ none ↦ [] | some line ↦ line ]
      iface ← red_file (codes "/var/ipcop/red/iface") address
      finish_red exitonerror kv
          (record zapped {
            default_gateway = gateway;
            red_active = not (active == minus_one);
            red_address = address;
          })
          iface
