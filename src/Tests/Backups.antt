-- ===== src/Tests/Backups.antt =====
-- The programs that make backups or unpack archives, on small inputs.
use ipcop_alpine.Prelude.{ℕ, ◌≡◌, refl, false, [], ◌∷◌, All, ◌||◌, ◌==◌}
use ipcop_alpine.Cstring.{Bytes, codes, starts_with}
use ipcop_alpine.Number.{is_negative}
use ipcop_alpine.Os.{Os, Call, History, history_of, exited, readlink, system}
use ipcop_alpine.Os.Guard.{IsGuarded}
use ipcop_alpine.Progs.Bkcfg.{is_blank, is_line_end, trim_line, is_root_disk, mount_command}
use ipcop_alpine.Progs.Bkcfg.Control.{mount}
use ipcop_alpine.Progs.Bkcfg.Mount.{mount_status, root_link}
use ipcop_alpine.Progs.Bkcfg.Steps.{Suffixes}
use ipcop_alpine.Progs.Bkcfg.Trim.{trim_line-name}
use ipcop_alpine.Progs.Fcdsl
use ipcop_alpine.Progs.Fcdsl.Archive.{archive_lock, main-unpack-IsGuarded}
use ipcop_alpine.Progs.Floppy
use ipcop_alpine.Progs.Floppy.Erase.{floppy_lock, main-erase-IsGuarded}

abbrev suffix : Bytes
suffix = codes "a1B2c3"

abbrev suffixes : Suffixes
suffixes = record {
  for_inc = codes "a1B2c3";
  for_exc = codes "Zz09xY";
  for_tar = codes "q7Rt5u";
  for_tgz = codes "M3n4P5";
}

abbrev floppy_suffixes : Floppy.Suffixes
floppy_suffixes = record {
  for_inc = codes "a1B2c3";
  for_test = codes "Zz09xY";
  for_dir = codes "q7Rt5u";
}

abbrev quiet : Os
quiet = record { status = λ h c. 0; text = λ h file. codes "/etc/hosts\n" }

inner : All (λ c. (is_line_end c ≡ false) × ((c == 0) ≡ false)) (codes "/etc/a b")
unfolding codes is_line_end
inner = (
  (refl, refl),
  (
    (refl, refl),
    (
      (refl, refl),
      ((refl, refl), ((refl, refl), ((refl, refl), ((refl, refl), ((refl, refl), tt))))),
    ),
  ),
)

trim_line-name_example : trim_line (codes "  /etc/a b\t\n") ≡ codes "/etc/a b"
unfolding codes is_blank is_line_end
trim_line-name_example =
    trim_line-name (codes "  ") b'/' (codes "etc/a b") (codes "\t") (refl, (refl, tt)) refl refl
      inner (refl, tt)

unpack_start : IsGuarded quiet (archive_lock suffix) []
unfolding IsGuarded
unpack_start = tt

main-unpack-IsGuarded_example :
    IsGuarded quiet (archive_lock suffix) (history_of (Fcdsl.main quiet suffix []))
main-unpack-IsGuarded_example = main-unpack-IsGuarded quiet suffix [] unpack_start

erase_start : IsGuarded quiet (floppy_lock floppy_suffixes) []
unfolding IsGuarded
erase_start = tt

main-erase-IsGuarded_example :
    IsGuarded quiet
      (floppy_lock floppy_suffixes)
      (history_of (Floppy.main quiet floppy_suffixes []))
main-erase-IsGuarded_example = main-erase-IsGuarded quiet floppy_suffixes [] erase_start

-- `mount` ends with 32; the link is of eleven bytes.
abbrev failing : Os
failing = record { status = status_of; text = λ h file. codes "../../sda4" }
  where
    status_of : History → Call → ℕ
    status_of h (readlink file) = 10
    status_of h _ = 8192

len_ok :
    (is_negative (failing.status [] (readlink root_link))
      || (failing.status [] (readlink root_link) == 0))
    ≡ false
len_ok = refl

other_disk :
    is_root_disk
      (failing.status [] (readlink root_link))
      (failing.text (readlink root_link ∷ []) root_link)
      (codes "sdb1")
    ≡ false
unfolding is_root_disk codes starts_with
other_disk = refl

mount_status_example :
    mount failing (codes "sdb1") []
    ≡ exited 0 (system (mount_command (codes "sdb1")) ∷ readlink root_link ∷ [])
mount_status_example = mount_status failing (codes "sdb1") [] 32 len_ok other_disk refl
