-- ===== src/Installer/Kernel.antt =====
-- source/core/installer/helper_kernel.c: which module of the kernel drives a device. `release` is what
-- `uname` gives, and `helper_kernel_init` has been called.
use ipcop_alpine.Prelude.{
  ℕ, ◌+◌, ◌/◌, ◌%◌, ◌≡◌, refl, true, false, not, [], ◌∷◌, ◌++◌, Option, none, some, ◌==◌, ltb,
  if◌then◌else◌, arith,
}
use ipcop_alpine.Cstring.{
  Bytes, codes, concat, snprintf, string_size, strcmp_eq, stripnl, fgets_first, has_byte,
}
use ipcop_alpine.Os.{
  Os, M, pure, ◌>>=◌, ◌>>◌, choose, crash, call, act, contents, fopen_read, fclose, popen_read,
  pclose,
}

unfoldable pub upper_digit : ℕ → ℕ
upper_digit n = if ltb n 10 then 48 + n else 55 + n

-- `%04X` of 16 bits
unfoldable pub print_upper_hex : ℕ → Bytes
unfolding upper_digit
print_upper_hex n =
    upper_digit (n / 4096 % 16)
    ∷ upper_digit (n / 256 % 16)
    ∷ upper_digit (n / 16 % 16)
    ∷ upper_digit (n % 16)
    ∷ []

-- `strrchr(s, c) + 1`
unfoldable pub after_last : ℕ → Bytes → Option Bytes
after_last c [] = none
after_last c (x ∷ xs) = elim (after_last c xs) [
  | some t ↦ some t
  | none ↦ elim (x == c) [ true ↦ some xs | false ↦ none ]
]

unfoldable pub alias_command : Bytes → Bytes → ℕ → ℕ → Bytes
unfolding print_upper_hex
alias_command release bus vendor_id device_id =
    let zeros = if strcmp_eq bus (codes "usb") then [] else codes "0000" in
    let sign = if strcmp_eq bus (codes "usb") then codes "p" else codes "d" in
    snprintf string_size (
      concat (
        codes "/bin/grep \""
        ∷ bus
        ∷ codes ":v"
        ∷ zeros
        ∷ print_upper_hex vendor_id
        ∷ sign
        ∷ zeros
        ∷ print_upper_hex device_id
        ∷ codes "\" /lib/modules/"
        ∷ release
        ∷ codes "/modules.alias"
        ∷ []))

-- The last word of an alias.
unfoldable pub module_of : Option Bytes → Option Bytes
unfolding after_last
module_of none = none
module_of (some line) = elim (after_last b' ' line) [
  | none ↦ none
  | some name ↦ some (stripnl name)
]

-- Where the link of the driver points.
unfoldable pub driver_of : Option Bytes → Bytes
unfolding after_last
driver_of none = []
driver_of (some line) = elim (after_last b'/' (stripnl line)) [ none ↦ [] | some name ↦ name ]

-- The id behind "0x"; what lies behind the end of a shorter line is taken to be empty.
unfoldable pub id_of : Option Bytes → Bytes
id_of none = []
id_of (some line) = elim (stripnl line) [ [] ↦ [] | c ∷ rest ↦ elim rest [ [] ↦ [] | d ∷ id ↦ id ] ]

-- The three buffers of `getkernelmodule`.
pub record KernelModule : Type 0 where
  pub module_buffer : Bytes
  pub vendorid_buffer : Bytes
  pub deviceid_buffer : Bytes

module _ (os : Os) where
  -- The result of popen is not looked at: reading from NULL is a fault.
  unfoldable pub first_output : Bytes → M (Option Bytes)
  first_output command = do
    opened ← call os (popen_read command)
    choose (not (opened == 0)) crash
        do text ← contents os command; act os (pclose command); pure (fgets_first string_size text)

  unfoldable pub find_modulename : Bytes → Bytes → ℕ → ℕ → M (Option Bytes)
  unfolding alias_command module_of
  find_modulename release bus vendor_id device_id = do
    line ← first_output (alias_command release bus vendor_id device_id)
    pure (module_of line)

  unfoldable pub read_id : Bytes → Bytes → M Bytes
  unfolding id_of
  read_id device file = do
    let path =
        snprintf string_size
          (concat (codes "/sys/class/net/" ∷ device ∷ codes "/device/" ∷ file ∷ []))
    opened ← call os (fopen_read path)
    choose (not (opened == 0)) (pure []) do
      text ← contents os path
      act os (fclose path)
      pure (id_of (fgets_first string_size text))

  unfoldable pub getkernelmodule : Bytes → M KernelModule
  unfolding driver_of
  getkernelmodule device = do
    link ← first_output (
        snprintf string_size
          (concat (codes "ls -l /sys/class/net/" ∷ device ∷ codes "/device/driver/module" ∷ [])))
    vendor ← read_id device (codes "vendor")
    model ← read_id device (codes "device")
    pure (record {
      module_buffer = driver_of link;
      vendorid_buffer = vendor;
      deviceid_buffer = model;
    })

no_last : (c : ℕ) (t : Bytes) → has_byte c t ≡ false → after_last c t ≡ none
unfolding after_last has_byte
no_last c [] h = refl
no_last c (x ∷ t) h = rw (no_last c t (ground arith)) (ground (arith, h))

-- The text behind the last of the byte, whatever stands before it.
pub after_last-append :
    (c : ℕ) (s t : Bytes) → has_byte c t ≡ false → after_last c (s ++ c ∷ t) ≡ some t
unfolding after_last
after_last-append c [] t h = rw (no_last c t h) (ground arith)
after_last-append c (x ∷ s) t h = rw (after_last-append c s t h) refl
