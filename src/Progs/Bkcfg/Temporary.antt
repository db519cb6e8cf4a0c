-- ===== src/Progs/Bkcfg/Temporary.antt =====
-- The temporary files of ipcopbkcfg do not outlive it: the archive stands in them unencrypted.
use ipcop_alpine.Prelude.{ℕ, Bool, List, [], ◌∷◌}
use ipcop_alpine.Cstring.{Bytes}
use ipcop_alpine.Os.{Os, M}
use ipcop_alpine.Os.Temp.{Settles}
use ipcop_alpine.Progs.Bkcfg.Steps.{
  Temps, leave, write_backup, Suffixes, inc_file, exc_file, tar_file, tgz_file,
}

abbrev pub temp_files : Suffixes → List Bytes
temp_files x = (inc_file x) ∷ (exc_file x) ∷ (tar_file x) ∷ (tgz_file x) ∷ []

-- The programs that leave with this set of names remove the file.
abbrev Leaves : Os → Bytes → Temps → Type 0
Leaves os file t = (n : ℕ) → Settles file (leave os {A = Unit {0}} t n)

module _ (os : Os) (x : Suffixes) (listing : List Bytes) (host timestamp : Bytes) (verbose : Bool)
    (comment : Bytes) where
  abbrev pub written : M (Unit {0})
  written = write_backup os x listing host timestamp verbose comment
