-- ===== src/Installer/Hardware/Scan.antt =====
-- Every scan of the drives keeps the list of the hardware.
use ipcop_alpine.Prelude.{ℕ, Bool, List, [], ◌∷◌, ◌++◌, Option, none, some}
use ipcop_alpine.Cstring.{Bytes, codes, stripnl, fgets_first, string_size}
use ipcop_alpine.Os.{Os, M, History}
use ipcop_alpine.Os.Yields.{
  Ends, Yields, Yields-pure, Yields-crash, Yields-choose, Yields-bind, Yields-after,
}
use ipcop_alpine.Installer.{Media, cdrom}
use ipcop_alpine.Installer.Hardware.{
  Hardwares, hardwareadd, add_sd, scan_sd, scan_sr, scan_each, scan_block_drives,
}
use ipcop_alpine.Installer.Hardware.Ide.{
  IdeScan, load_idecd, media_of, add_named, add_drive, add_ide, scan_device, scan_devices,
  scanprocdrives,
}
use ipcop_alpine.Installer.Hardware.Listed.{IsListed, hardwareadd-IsListed}

add_sd-IsListed :
    (type : Option Media) (device description : Bytes) (s : Hardwares)
    → IsListed s
    → IsListed (add_sd type device description s)
unfolding add_sd
add_sd-IsListed none device description s v = v
add_sd-IsListed (some type) device description s v =
    hardwareadd-IsListed type none (some device) none (some description) 0 0 s v

add_ide-IsListed :
    (type : Media) (device description : Bytes) (s : Hardwares)
    → IsListed s
    → IsListed (add_ide type device description s).found
unfolding add_ide
add_ide-IsListed type device description s v =
    hardwareadd-IsListed type none (some device) none (some description) 0 0 s v

abbrev Scanned : IdeScan → Type 0
Scanned st = IsListed st.found

-- A line that may be missing.
Yields-line :
    {A : Type 0} {Q : A → Type 0} (line : Option Bytes) {k : M A} {f : Bytes → M A}
    → Yields Q k
    → ((l : Bytes) → Yields Q (f l))
    → Yields Q (elim line [ none ↦ k | some l ↦ f l ])
Yields-line none yk yf = yk
Yields-line (some l) yk yf = yf l

module _ (os : Os) where
  scan_sd-Yields : (letter : ℕ) (s : Hardwares) → IsListed s → Yields IsListed (scan_sd os letter s)
  unfolding scan_sd
  scan_sd-Yields letter s v = Yields-after _ λ opened. Yields-choose _ (Yields-pure s v) (
      Yields-after _ λ text.
        Yields-line _ (Yields-after _ λ _. Yields-pure s v)
          λ line. Yields-after _ λ p. Yields-after _ λ _. Yields-pure _ (add_sd-IsListed _ _ _ s v))

  scan_sr-Yields : (digit : ℕ) (s : Hardwares) → IsListed s → Yields IsListed (scan_sr os digit s)
  unfolding scan_sr
  scan_sr-Yields digit s v = Yields-after _ λ opened. Yields-choose _ (Yields-pure s v) (
      Yields-after _
        λ text. Yields-after _ λ _. Yields-pure _ (found (fgets_first string_size text)))
    where
      found :
          (first : Option Bytes)
          → IsListed (elim first [
            | none ↦ s
            | some line ↦
                hardwareadd cdrom none
                  (some (codes "sr" ++ digit ∷ []))
                  none
                  (some (stripnl line))
                  0
                  0
                  s
          ])
      found none = v
      found (some line) =
          hardwareadd-IsListed cdrom none (some (codes "sr" ++ digit ∷ [])) none
            (some (stripnl line)) 0 0 s v

  scan_each-Yields :
      {scan : ℕ → Hardwares → M Hardwares}
      → ((c : ℕ) (s : Hardwares) → IsListed s → Yields IsListed (scan c s))
      → (cs : List ℕ) (s : Hardwares) → IsListed s
      → Yields IsListed (scan_each os scan cs s)
  unfolding scan_each
  scan_each-Yields each [] s v = Yields-pure s v
  scan_each-Yields each (c ∷ cs) s v = Yields-bind (each c s v) (scan_each-Yields each cs)

  scan_block_drives-Yields : (s : Hardwares) → IsListed s → Yields IsListed (scan_block_drives os s)
  unfolding scan_block_drives
  scan_block_drives-Yields s v =
      Yields-bind (scan_each-Yields scan_sd-Yields _ s v) (scan_each-Yields scan_sr-Yields _)

  load_idecd-Yields :
      (modprobe : Bool) (media : Bytes) (s : Hardwares)
      → IsListed s
      → Yields IsListed (load_idecd os modprobe media s)
  unfolding load_idecd
  load_idecd-Yields modprobe media s v =
      Yields-choose _
        (Yields-after _ λ _. Yields-after _ λ _. Yields-pure _ (record {
          networks = v.networks;
          harddisks = v.harddisks;
          cdroms = v.cdroms;
          unique = v.unique;
        }))
        (Yields-pure s v)

  media_of-Yields :
      (modprobe : Bool) (line : Option Bytes) (st : IdeScan)
      → Scanned st
      → Yields Scanned (media_of os modprobe line st)
  unfolding media_of
  media_of-Yields modprobe none st v = Yields-pure st v
  media_of-Yields modprobe (some line) st v =
      Yields-bind (load_idecd-Yields modprobe (stripnl line) st.found v) λ found w. Yields-pure _ w

  add_named-Yields :
      (name device : Bytes) (st : IdeScan)
      → Scanned st
      → Yields Scanned (add_named os name device st)
  unfolding add_named
  add_named-Yields name device st v = Yields-after _ λ opened. Yields-choose _ Yields-crash (
      Yields-after _ λ text.
        Yields-after _
          λ description. Yields-after _ λ _. Yields-pure _ (add_ide-IsListed _ _ _ st.found v))

  add_drive-Yields :
      (name : Bytes) (st : IdeScan) → Scanned st → Yields Scanned (add_drive os name st)
  unfolding add_drive
  add_drive-Yields name st v =
      let plain = add_ide-IsListed st.type [] (codes "Unknown") st.found v in
      Yields-after _ λ opened. Yields-choose _ (Yields-pure _ plain) (
        Yields-after _ λ text. Yields-after _ λ _.
          Yields-line _ (Yields-pure _ plain) λ line. add_named-Yields name (stripnl line) st v)

  scan_device-Yields :
      (modprobe : Bool) (name : Bytes) (st : IdeScan)
      → Scanned st
      → Yields Scanned (scan_device os modprobe name st)
  unfolding scan_device
  scan_device-Yields modprobe name st v = Yields-after _ λ opened.
      Yields-choose _ (Yields-pure st v) (
        Yields-after _ λ text. Yields-bind (media_of-Yields modprobe _ st v) λ st' v'.
          Yields-after _ λ _. Yields-choose _ (Yields-pure st' v') (add_drive-Yields name st' v'))

  scan_devices-Yields :
      (modprobe : Bool) (names : List Bytes) (st : IdeScan)
      → Scanned st
      → Yields Scanned (scan_devices os modprobe names st)
  unfolding scan_devices
  scan_devices-Yields modprobe [] st v = Yields-pure st v
  scan_devices-Yields modprobe (name ∷ names) st v =
      Yields-bind (scan_device-Yields modprobe name st v) (scan_devices-Yields modprobe names)

  -- Whatever the system answers: a scan of the drives that ends leaves a list in which each tally is the
  -- number of the entries of its type, and no device with a name stands twice, where the list was one
  -- before.
  pub scanprocdrives-IsListed :
      (modprobe : Bool) (listing : List Bytes) (s : Hardwares) (h : History)
      → IsListed s
      → Ends IsListed (scanprocdrives os modprobe listing s h)
  unfolding scanprocdrives
  scanprocdrives-IsListed modprobe listing s h v =
      Yields.yields
        (Yields-after _ λ n. Yields-after _ λ names.
          Yields-bind (scan_devices-Yields modprobe names _ v)
            λ st w. scan_block_drives-Yields st.found w)
        h
