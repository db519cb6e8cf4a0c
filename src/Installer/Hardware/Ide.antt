-- ===== src/Installer/Hardware/Ide.antt =====
-- source/core/installer/hardware.c: the IDE drives, and `scanprocdrives` as a whole. `listing` is the sorted
-- list of the names in the directory of the IDE devices, and the filter is asked in this order. A name that could not be read is taken to be
-- empty.
use ipcop_alpine.Prelude.{
  Bool, true, false, not, ◌&&◌, List, [], ◌∷◌, Option, none, some, ◌==◌, if◌then◌else◌,
}
use ipcop_alpine.Cstring.{
  Bytes, codes, concat, snprintf, string_size, strcmp_eq, stripnl, fgets_first,
}
use ipcop_alpine.Number.{is_negative}
use ipcop_alpine.Os.{
  Os, M, pure, ◌>>=◌, ◌>>◌, choose, crash, call, act, contents, fopen_read, fclose, sleep, scandir,
}
use ipcop_alpine.Installer.{Media, cdrom, harddisk, mysystem}
use ipcop_alpine.Installer.Hardware.{
  Hardwares, hardwareadd, drive_description, getdrivesize, ide_filter, scan_block_drives,
}

-- The local `type`, with the list.
pub record IdeScan : Type 0 where
  pub type : Media
  pub found : Hardwares

unfoldable pub ide_path : Bytes → Bytes → Bytes
ide_path name file =
    snprintf string_size (concat (codes "/sys/bus/ide/devices/" ∷ name ∷ codes "/" ∷ file ∷ []))

unfoldable pub is_none : Media → Bool
is_none Media.none = true
is_none _ = false

unfoldable pub is_disk : Media → Bool
is_disk harddisk = true
is_disk _ = false

-- What `media` holds gives the type; anything else leaves that of the device before.
unfoldable pub type_after : Bytes → Media → Media
type_after media type =
    if strcmp_eq media (codes "disk")
    then harddisk
    else if strcmp_eq media (codes "cdrom")
    then cdrom
    else type

unfoldable pub add_ide : Media → Bytes → Bytes → Hardwares → IdeScan
add_ide type device description s = record {
  type = type;
  found = hardwareadd type none (some device) none (some description) 0 0 s;
}

module _ (os : Os) where
  unfoldable pub filter_names : List Bytes → M (List Bytes)
  filter_names [] = pure []
  filter_names (name ∷ names) = do
    kept ← ide_filter os name
    rest ← filter_names names
    pure (if kept then name ∷ rest else rest)

  -- The module of the first CD drive.
  unfoldable pub load_idecd : Bool → Bytes → Hardwares → M Hardwares
  load_idecd modprobe media s =
      choose (strcmp_eq media (codes "cdrom") && (modprobe && not s.have_idecd))
        (do
          loaded ← mysystem os (codes "/sbin/modprobe ide-cd_mod")
          act os (sleep 1)
          pure (record s { have_idecd = true }))
        (pure s)

  -- The first line of a file, behind which it is closed.
  unfoldable pub media_of : Bool → Option Bytes → IdeScan → M IdeScan
  unfolding type_after
  media_of modprobe none st = pure st
  media_of modprobe (some line) st = do
    found ← load_idecd modprobe (stripnl line) st.found
    pure (record { type = type_after (stripnl line) st.type; found = found })

  unfoldable pub describe : Media → Bytes → Option Bytes → M Bytes
  unfolding is_disk drive_description
  describe type device none = pure (codes "Unknown")
  describe type device (some line) =
      choose (is_disk type)
        (do
          (mib, strsize) ←
              getdrivesize os
                (snprintf string_size (concat (codes "/sys/block/" ∷ device ∷ codes "/size" ∷ [])))
          pure (drive_description (stripnl line) strsize))
        (pure (stripnl line))

  -- The model of a drive with a name. Where its file cannot be opened, NULL is closed.
  unfoldable pub add_named : Bytes → Bytes → IdeScan → M IdeScan
  unfolding ide_path add_ide
  add_named name device st = do
    opened ← call os (fopen_read (ide_path name (codes "model")))
    choose (not (opened == 0)) crash do
      text ← contents os (ide_path name (codes "model"))
      description ← describe st.type device (fgets_first string_size text)
      act os (fclose (ide_path name (codes "model")))
      pure (add_ide st.type device description st.found)

  unfoldable pub add_drive : Bytes → IdeScan → M IdeScan
  unfolding ide_path add_ide
  add_drive name st = do
    opened ← call os (fopen_read (ide_path name (codes "drivename")))
    choose (not (opened == 0)) (pure (add_ide st.type [] (codes "Unknown") st.found)) do
      text ← contents os (ide_path name (codes "drivename"))
      act os (fclose (ide_path name (codes "drivename")))
      elim (fgets_first string_size text) [
        | none ↦ pure (add_ide st.type [] (codes "Unknown") st.found)
        | some line ↦ add_named name (stripnl line) st
      ]

  unfoldable pub scan_device : Bool → Bytes → IdeScan → M IdeScan
  unfolding ide_path is_none
  scan_device modprobe name st = do
    opened ← call os (fopen_read (ide_path name (codes "media")))
    choose (not (opened == 0)) (pure st) do
      text ← contents os (ide_path name (codes "media"))
      st' ← media_of modprobe (fgets_first string_size text) st
      act os (fclose (ide_path name (codes "media")))
      choose (is_none st'.type) (pure st') (add_drive name st')

  unfoldable pub scan_devices : Bool → List Bytes → IdeScan → M IdeScan
  scan_devices modprobe [] st = pure st
  scan_devices modprobe (name ∷ names) st = do
    st' ← scan_device modprobe name st
    scan_devices modprobe names st'

  unfoldable pub scanprocdrives : Bool → List Bytes → Hardwares → M Hardwares
  scanprocdrives modprobe listing s = do
    n ← call os (scandir (codes "/sys/bus/ide/devices"))
    names ← (choose (is_negative n) (pure []) (filter_names listing))
    st ← scan_devices modprobe names (record { type = Media.none; found = s })
    scan_block_drives os st.found
