-- ===== src/Tests/Settings.antt =====
-- Settings files, addresses and numbers.
use ipcop_alpine.Prelude.{
  ◌≡◌, refl, ◌↔◌, inl, inr, [], ◌∷◌, ◌++◌, Bool, true, false, not, ◌&&◌, ◌||◌, ◌==◌, some, reverse,
  if◌then◌else◌, arith, All,
}
use ipcop_alpine.Cstring.{
  is_newline, Bytes, codes, string_size, fgets_lines, strcmp_eq, has_byte, after, before_last, from,
  stripnl, starts_with,
}
use ipcop_alpine.Os.{
  Os, History, done, history_of, pure, ◌>>=◌, choose, call, act, when, for_each, fopen_read,
  flock_shared, flock_unlock, fclose,
}
use ipcop_alpine.Kv.File.{read_kv_from_file, write_kv_to_file}
use ipcop_alpine.Kv.Storage.{
  file_text, TakesWrites, file_text-TakesWrites, write_kv_to_file-text,
  read_kv_from_file-write_kv_to_file,
}
use ipcop_alpine.Kv.{
  Item, Kv, success, failure, find_kv, update_kv, read_kv_lines, print_kv, print_item, add_kv,
  unquote, is_equals, parse_line,
}
use ipcop_alpine.Kv.CommandLine.{read_kv_from_line, value_at}
use ipcop_alpine.Kv.Laws.{find_kv-update_kv}
use ipcop_alpine.Kv.CommandLine.{is_space, ends_key}
use ipcop_alpine.Kv.CommandLine.RoundTrip.{IsWord, words_of, read_kv_from_line-words_of}
use ipcop_alpine.Kv.RoundTrip.{IsText, IsStorable, read-print_kv}
use ipcop_alpine.Valid.{valid_ip, ipcop_version}
use ipcop_alpine.Valid.Ip.{IsDottedQuad}
use ipcop_alpine.Valid.Quad.{valid_ip_iff}

abbrev host : Item
host = record { key = codes "HOSTNAME"; value = codes "ipcop" }

abbrev zone : Item
zone = record { key = codes "TZ"; value = codes "Europe Paris" }

abbrev settings : Kv
settings = host ∷ zone ∷ []

print_settings : print_kv settings ≡ codes "HOSTNAME=ipcop\nTZ='Europe Paris'\n"
unfolding print_kv codes has_byte
print_settings = refl

read_settings :
    read_kv_lines [] (fgets_lines string_size (codes "A=1\n\n=x\nB='two words' \nbad\nC=3\n")) ≡ (
      failure,
      record { key = codes "B"; value = codes "two words" }
          ∷ record { key = codes "A"; value = codes "1" }
          ∷ [],
    )
unfolding read_kv_lines fgets_lines parse_line codes has_byte after before_last
read_settings = refl

read_line :
    read_kv_from_line [] (codes "K1=V1 K2 K3=V3")
    ≡ some (
        record { key = codes "K3"; value = codes "V3" }
        ∷ record { key = codes "K2"; value = codes "1" }
        ∷ record { key = codes "K1"; value = codes "V1" }
        ∷ [])
unfolding read_kv_from_line value_at codes from stripnl add_kv
read_line = refl

version_2_1_9 : ipcop_version (some (codes "IPCop v2.1.9\n")) ≡ 131337
unfolding ipcop_version codes stripnl starts_with from
version_2_1_9 = refl

-- No byte of a text ends the line or the string.
abbrev no_ends : Bytes → Bool
no_ends [] = true
no_ends (c ∷ s) = not (c == 0 || (c == b'\n' || c == b'\r')) && no_ends s

no_ends-IsText : (s : Bytes) → no_ends s ≡ true → All IsText s
no_ends-IsText [] h = tt
no_ends-IsText (c ∷ s) h = (
  record { ne_nul = ground arith; ne_newline = ground arith; ne_return = ground arith },
  no_ends-IsText s (ground arith),
)

no_equals : (s : Bytes) → has_byte b'=' s ≡ false → All (λ c. is_equals c ≡ false) s
unfolding has_byte is_equals
no_equals [] h = tt
no_equals (c ∷ s) h = (ground arith, no_equals s (ground arith))

zone-IsStorable : IsStorable zone
unfolding codes print_item has_byte
zone-IsStorable = record {
  key_ne_nil = refl;
  key_text = no_ends-IsText zone.key refl;
  key_plain = no_equals zone.key refl;
  value_text = no_ends-IsText zone.value refl;
  value_plain = inl refl;
  fits = omega arith;
}

host-IsStorable : IsStorable host
unfolding codes print_item has_byte unquote
host-IsStorable = record {
  key_ne_nil = refl;
  key_text = no_ends-IsText host.key refl;
  key_plain = no_equals host.key refl;
  value_text = no_ends-IsText host.value refl;
  value_plain = inr refl;
  fits = omega arith;
}

read-print_kv_example :
    read_kv_lines [] (fgets_lines string_size (print_kv settings))
    ≡ (success, reverse settings ++ [])
read-print_kv_example = read-print_kv settings [] (host-IsStorable, (zone-IsStorable, tt))

find_kv-update_kv_example :
    find_kv (update_kv settings (codes "TZ") (codes "UTC")) (codes "HOSTNAME") ≡ (
      if strcmp_eq (codes "TZ") (codes "HOSTNAME")
      then some (codes "UTC")
      else find_kv settings (codes "HOSTNAME"))
find_kv-update_kv_example = find_kv-update_kv settings (codes "TZ") (codes "UTC") (codes "HOSTNAME")

valid_ip_iff_example : (valid_ip (codes "10.0.0.254") ≡ true) ↔ IsDottedQuad (codes "10.0.0.254")
valid_ip_iff_example = valid_ip_iff (codes "10.0.0.254")

host-IsWord : IsWord host
unfolding codes is_space ends_key is_newline
host-IsWord = record {
  key_ne_nil = refl;
  key_plain = (refl, (refl, (refl, (refl, (refl, (refl, (refl, (refl, tt))))))));
  value_plain = (refl, (refl, (refl, (refl, (refl, tt)))));
  key_line = (refl, (refl, (refl, (refl, (refl, (refl, (refl, (refl, tt))))))));
  value_line = (refl, (refl, (refl, (refl, (refl, tt)))));
}

read_kv_from_line-words_of_example :
    read_kv_from_line settings (words_of (host ∷ host ∷ []) ++ b'\n' ∷ [])
    ≡ some (reverse (host ∷ host ∷ []) ++ settings)
unfolding codes
read_kv_from_line-words_of_example =
    read_kv_from_line-words_of (host ∷ host ∷ []) settings (host-IsWord, (host-IsWord, tt))
      (omega arith)

abbrev conf : Bytes
conf = codes "/var/ipcop/main/settings"

-- A system where every call succeeds and the file holds what was written to it.
abbrev disk : Os
disk = record { status = λ h c. 0; text = λ h file. file_text file h }

abbrev after_write : History
after_write = history_of (write_kv_to_file disk settings conf [])

write_run : write_kv_to_file disk settings conf [] ≡ done success after_write
unfolding write_kv_to_file for_each when act call pure ◌>>=◌ choose
write_run = refl

disk-TakesWrites : TakesWrites conf (λ g. disk.text g conf)
disk-TakesWrites = file_text-TakesWrites conf

write_kv_to_file-text_example :
    (h' : History) × (write_kv_to_file disk settings conf [] ≡ done success h')
    × (disk.text h' conf ≡ print_kv settings)
write_kv_to_file-text_example =
    write_kv_to_file-text disk settings conf [] disk-TakesWrites refl refl

read_kv_from_file-write_kv_to_file_example :
    read_kv_from_file disk [] conf after_write
    ≡ done
        (success, reverse settings ++ [])
        (fclose conf ∷ flock_unlock conf ∷ flock_shared conf ∷ fopen_read conf ∷ after_write)
read_kv_from_file-write_kv_to_file_example =
    read_kv_from_file-write_kv_to_file disk settings conf [] [] after_write (λ g. refl)
      (host-IsStorable, (zone-IsStorable, tt)) write_run refl refl
