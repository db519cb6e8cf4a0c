-- ===== src/Installer/Hardware.antt =====
-- source/core/installer/hardware.c: the list of the hardware, and the drives that /sys knows.
pub mod Listed
pub mod DriveSize
pub mod Ide
pub mod Scan
use ipcop_alpine.Prelude.{
  ℕ, zero, suc, ◌+◌, ◌-◌, ◌*◌, ◌/◌, ◌%◌, ◌^◌, Bool, true, false, not, ◌&&◌, ◌||◌, List, [], ◌∷◌,
  ◌++◌, Option, none, some, ◌==◌, ltb, leb, if◌then◌else◌, length, min, take,
}
use ipcop_alpine.Cstring.{
  Bytes, codes, concat, snprintf, string_size, strcmp_eq, stripnl, fgets_first, from,
}
use ipcop_alpine.Number.{print_decimal}
use ipcop_alpine.Setuid.{count_from}
use ipcop_alpine.Valid.{digits, decimal, not_white}
use ipcop_alpine.Os.{
  Os, M, pure, ◌>>=◌, ◌>>◌, choose, when, crash, call, act, contents, access, fopen_read, fclose,
  sleep,
}
use ipcop_alpine.Installer.{Media, cdrom, harddisk, network, mysystem}
use ipcop_alpine.Installer.Disk.{pad}

-- struct hardware_s
pub record Hardware : Type 0 where
  pub module_name : Bytes
  pub device : Bytes
  pub description : Bytes
  pub type : Media
  pub vendorid : Bytes
  pub modelid : Bytes

-- The list with its tallies, and `have_idecd`.
pub record Hardwares : Type 0 where
  pub list : List Hardware
  pub numnetwork : ℕ
  pub numharddisk : ℕ
  pub numcdrom : ℕ
  pub have_idecd : Bool

unfoldable pub hex_digit : ℕ → ℕ
hex_digit n = if ltb n 10 then 48 + n else 87 + n

-- `%04x` of 16 bits
unfoldable pub print_hex : ℕ → Bytes
unfolding hex_digit
print_hex n =
    hex_digit (n / 4096 % 16)
    ∷ hex_digit (n / 256 % 16)
    ∷ hex_digit (n / 16 % 16)
    ∷ hex_digit (n % 16)
    ∷ []

unfoldable pub id_text : ℕ → Bytes
unfolding print_hex
id_text n = if n == 0 then [] else print_hex n

unfoldable pub full_description : Option Bytes → Option Bytes → ℕ → ℕ → Bytes
unfolding print_hex
full_description vendor none vendorid modelid =
    snprintf string_size
      (concat (codes "Unknown " ∷ print_hex vendorid ∷ codes ":" ∷ print_hex modelid ∷ []))
full_description none (some description) vendorid modelid = description
full_description (some vendor) (some description) vendorid modelid = vendor ++ b' ' ∷ description

unfoldable pub has_device : Bytes → List Hardware → Bool
has_device device [] = false
has_device device (x ∷ xs) = strcmp_eq device x.device || has_device device xs

unfoldable pub or_empty : Option Bytes → Bytes
or_empty none = []
or_empty (some s) = s

-- A duplicate: NULL is none.
unfoldable pub is_duplicate : Option Bytes → List Hardware → Bool
unfolding has_device
is_duplicate none xs = false
is_duplicate (some device) xs = has_device device xs

-- The tally of a type.
unfoldable pub tally : Media → Hardwares → Hardwares
tally network s = record s { numnetwork = s.numnetwork + 1 }
tally harddisk s = record s { numharddisk = s.numharddisk + 1 }
tally cdrom s = record s { numcdrom = s.numcdrom + 1 }
tally _ s = s

unfoldable pub append_hardware : Hardware → Hardwares → Hardwares
unfolding tally
append_hardware x s = tally x.type (record s { list = s.list ++ x ∷ [] })

unfoldable pub hardwareadd :
    Media
    → Option Bytes
    → Option Bytes
    → Option Bytes
    → Option Bytes
    → ℕ
    → ℕ
    → Hardwares
    → Hardwares
unfolding or_empty id_text full_description is_duplicate append_hardware
hardwareadd type module_name device vendor description vendorid modelid s =
    if is_duplicate device s.list
    then s
    else append_hardware
        (record {
          module_name = or_empty module_name;
          device = or_empty device;
          description = full_description vendor description vendorid modelid;
          type = type;
          vendorid = id_text vendorid;
          modelid = id_text modelid;
        })
        s

-- `strtoull(s, NULL, 10)`
unfoldable pub strtoull : Bytes → ℕ
unfolding not_white
strtoull s = elim (from not_white s) [
  | [] ↦ 0
  | c ∷ t ↦
      if c == b'-'
      then (2 ^ 64 - min (decimal 0 (digits (length t) t).0) (2 ^ 64 - 1)) % 2 ^ 64
      else if c == b'+'
      then min (decimal 0 (digits (length t) t).0) (2 ^ 64 - 1)
      else min (decimal 0 (digits (suc (length t)) (c ∷ t)).0) (2 ^ 64 - 1)
]

-- The size in KiB of 64-bit arithmetic, from blocks of 512 bytes.
unfoldable pub kbytes : ℕ → ℕ
kbytes blocks = blocks * 512 % 2 ^ 64 / 1024

unfoldable pub size_text : ℕ → Bytes
size_text size =
    if leb 4000000 size
    then print_decimal (size / (1024 * 1024)) ++ codes " GiB"
    else if leb 4000 size
    then print_decimal (size / 1024) ++ codes " MiB"
    else print_decimal size ++ codes " KiB"

-- `getdrivesize` on the first line of its file, where there is one: MiB, and the text.
unfoldable pub drive_size : Option Bytes → ℕ × Bytes
unfolding strtoull kbytes size_text
drive_size none = (0, codes "? KiB")
drive_size (some line) = let size = kbytes (strtoull line) in (size / 1024, size_text size)

-- `%-30.30s (%s)`
unfoldable pub drive_description : Bytes → Bytes → Bytes
unfolding pad
drive_description model strsize =
    snprintf string_size (pad 30 (take 30 model) ++ (codes " (" ++ (strsize ++ codes ")")))

unfoldable pub sd_type : ℕ → Option Media
sd_type drivesize =
    if ltb drivesize 32 then none else if ltb drivesize 480 then some cdrom else some harddisk

unfoldable pub add_sd : Option Media → Bytes → Bytes → Hardwares → Hardwares
unfolding hardwareadd
add_sd none device description s = s
add_sd (some type) device description s =
    hardwareadd type none (some device) none (some description) 0 0 s

module _ (os : Os) where
  -- The file is not closed.
  unfoldable pub getdrivesize : Bytes → M (ℕ × Bytes)
  unfolding drive_size
  getdrivesize procname = do
    opened ← call os (fopen_read procname)
    choose (not (opened == 0)) (pure (drive_size none))
        do text ← contents os procname; pure (drive_size (fgets_first string_size text))

  unfoldable pub ide_filter : Bytes → M Bool
  ide_filter name = do
    rc ← call os (
        access (
          snprintf string_size
            (concat (codes "/sys/bus/ide/devices/" ∷ name ∷ codes "/media" ∷ []))))
    pure (rc == 0)

  -- A drive of the SCSI layer; one that is too small leaves its file open.
  unfoldable pub scan_sd : ℕ → Hardwares → M Hardwares
  unfolding sd_type add_sd drive_description
  scan_sd letter s = do
    let procname = concat (codes "/sys/block/sd" ∷ (letter ∷ []) ∷ codes "/device/model" ∷ [])
    opened ← call os (fopen_read procname)
    choose (not (opened == 0)) (pure s) do
      text ← contents os procname
      elim (fgets_first string_size text) [
        | none ↦ do act os (fclose procname); pure s
        | some line ↦ do
          (drivesize, strsize) ←
              getdrivesize (concat (codes "/sys/block/sd" ∷ (letter ∷ []) ∷ codes "/size" ∷ []))
          when (not (ltb drivesize 32)) (act os (fclose procname))
          pure (
              add_sd (sd_type drivesize) (codes "sd" ++ letter ∷ [])
                (drive_description (stripnl line) strsize) s)
      ]

  unfoldable pub scan_sr : ℕ → Hardwares → M Hardwares
  unfolding hardwareadd
  scan_sr digit s = do
    let procname = concat (codes "/sys/block/sr" ∷ (digit ∷ []) ∷ codes "/device/model" ∷ [])
    opened ← call os (fopen_read procname)
    choose (not (opened == 0)) (pure s) do
      text ← contents os procname
      act os (fclose procname)
      pure (elim (fgets_first string_size text) [
        | none ↦ s
        | some line ↦
            hardwareadd cdrom none (some (codes "sr" ++ digit ∷ [])) none (some (stripnl line)) 0 0
              s
      ])

  -- `for (deviceletter = ...; ...; deviceletter++)`
  unfoldable pub scan_each : (ℕ → Hardwares → M Hardwares) → List ℕ → Hardwares → M Hardwares
  scan_each scan [] s = pure s
  scan_each scan (c ∷ cs) s = do s' ← scan c s; scan_each scan cs s'

  -- The second and the third loop of `scanprocdrives`.
  unfoldable pub scan_block_drives : Hardwares → M Hardwares
  unfolding count_from
  scan_block_drives s = do
    s' ← scan_each scan_sd (count_from b'a' 26) s
    scan_each scan_sr (count_from b'0' 10) s'
