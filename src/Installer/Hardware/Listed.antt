-- ===== src/Installer/Hardware/Listed.antt =====
-- The list of the hardware: its tallies, and that no device stands in it twice.
use ipcop_alpine.Prelude.{
  ℕ, ◌+◌, ◌≡◌, refl, ◌⊎◌, inl, inr, Bool, true, false, ◌||◌, List, [], ◌∷◌, ◌++◌, Option, none,
  some, if◌then◌else◌, Bool-cases, arith, ◌∙◌,
}
use ipcop_alpine.Cstring.{Bytes, strcmp_eq, is_nil}
use ipcop_alpine.Installer.{Media, network, harddisk, cdrom}
use ipcop_alpine.Installer.Hardware.{
  Hardware, Hardwares, has_device, is_duplicate, append_hardware, hardwareadd, or_empty, tally,
}

abbrev pub is_network : Media → Bool
is_network network = true
is_network _ = false

abbrev pub is_harddisk : Media → Bool
is_harddisk harddisk = true
is_harddisk _ = false

abbrev pub is_cdrom : Media → Bool
is_cdrom cdrom = true
is_cdrom _ = false

abbrev pub count_type : (Media → Bool) → List Hardware → ℕ
count_type p [] = 0
count_type p (x ∷ xs) = (if p x.type then 1 else 0) + count_type p xs

-- A device with a name does not come again behind.
abbrev pub IsUnique : List Hardware → Type 0
IsUnique [] = Unit
IsUnique (x ∷ xs) = ((is_nil x.device ≡ true) ⊎ (has_device x.device xs ≡ false)) × IsUnique xs

pub record IsListed (s : Hardwares) : Type 0 where
  pub networks : s.numnetwork ≡ count_type is_network s.list
  pub harddisks : s.numharddisk ≡ count_type is_harddisk s.list
  pub cdroms : s.numcdrom ≡ count_type is_cdrom s.list
  pub unique : IsUnique s.list

count_type-append :
    (p : Media → Bool) (xs : List Hardware) (x : Hardware)
    → count_type p (xs ++ x ∷ []) ≡ count_type p xs + (if p x.type then 1 else 0)
count_type-append p [] x = omega arith
count_type-append p (y ∷ xs) x = omega (arith, count_type-append p xs x)

strcmp_eq_sym : (a b : Bytes) → strcmp_eq a b ≡ strcmp_eq b a
unfolding strcmp_eq
strcmp_eq_sym [] [] = refl
strcmp_eq_sym [] (y ∷ b) = refl
strcmp_eq_sym (x ∷ a) [] = refl
strcmp_eq_sym (x ∷ a) (y ∷ b) = ground (arith, strcmp_eq_sym a b)

not_same :
    (a b : Bytes)
    → is_nil a ≡ false
    → (is_nil b ≡ true) ⊎ (strcmp_eq b a ≡ false)
    → strcmp_eq a b ≡ false
unfolding strcmp_eq
not_same [] b e h = cc
not_same (x ∷ a) [] e h = refl
not_same (x ∷ a) (y ∷ b) e (inl n) = cc
not_same (x ∷ a) (y ∷ b) e (inr n) = strcmp_eq_sym (x ∷ a) (y ∷ b) ∙ n

has_device-append :
    (d : Bytes) (xs : List Hardware) (y : Hardware)
    → has_device d xs ≡ false
    → strcmp_eq d y.device ≡ false
    → has_device d (xs ++ y ∷ []) ≡ false
unfolding has_device
has_device-append d [] y h e = rw e refl
has_device-append d (x ∷ xs) y h e = ground (arith, has_device-append d xs y, h, e)

append-IsUnique :
    (xs : List Hardware) (y : Hardware)
    → IsUnique xs
    → (is_nil y.device ≡ true) ⊎ (has_device y.device xs ≡ false)
    → IsUnique (xs ++ y ∷ [])
unfolding has_device
append-IsUnique [] y u h = (inr refl, tt)
append-IsUnique (x ∷ xs) y (first, u) h =
    (front first (Bool-cases (is_nil x.device)), append-IsUnique xs y u (rest h))
  where
    rest :
        (is_nil y.device ≡ true) ⊎ ((strcmp_eq y.device x.device || has_device y.device xs) ≡ false)
        → (is_nil y.device ≡ true) ⊎ (has_device y.device xs ≡ false)
    rest (inl e) = inl e
    rest (inr e) = inr (ground arith)

    other :
        (is_nil y.device ≡ true) ⊎ ((strcmp_eq y.device x.device || has_device y.device xs) ≡ false)
        → (is_nil y.device ≡ true) ⊎ (strcmp_eq y.device x.device ≡ false)
    other (inl e) = inl e
    other (inr e) = inr (ground arith)

    front :
        (is_nil x.device ≡ true) ⊎ (has_device x.device xs ≡ false)
        → (is_nil x.device ≡ true) ⊎ (is_nil x.device ≡ false)
        → (is_nil x.device ≡ true) ⊎ (has_device x.device (xs ++ y ∷ []) ≡ false)
    front f (inl e) = inl e
    front (inl e) (inr n) = inl e
    front (inr e) (inr n) =
        inr (has_device-append x.device xs y e (not_same x.device y.device n (other h)))

-- The tallies of `xs`, and a list with one more of the type.
tally-IsListed :
    (type : Media) (s : Hardwares) (xs : List Hardware)
    → s.numnetwork ≡ count_type is_network xs
    → s.numharddisk ≡ count_type is_harddisk xs
    → s.numcdrom ≡ count_type is_cdrom xs
    → ((p : Media → Bool) → count_type p s.list ≡ count_type p xs + (if p type then 1 else 0))
    → IsUnique s.list
    → IsListed (tally type s)
unfolding tally
tally-IsListed network s xs n h c grown u = record {
  networks = omega (arith, n, grown is_network);
  harddisks = omega (arith, h, grown is_harddisk);
  cdroms = omega (arith, c, grown is_cdrom);
  unique = u;
}
tally-IsListed harddisk s xs n h c grown u = record {
  networks = omega (arith, n, grown is_network);
  harddisks = omega (arith, h, grown is_harddisk);
  cdroms = omega (arith, c, grown is_cdrom);
  unique = u;
}
tally-IsListed cdrom s xs n h c grown u = record {
  networks = omega (arith, n, grown is_network);
  harddisks = omega (arith, h, grown is_harddisk);
  cdroms = omega (arith, c, grown is_cdrom);
  unique = u;
}
tally-IsListed _ s xs n h c grown u = record {
  networks = omega (arith, n, grown is_network);
  harddisks = omega (arith, h, grown is_harddisk);
  cdroms = omega (arith, c, grown is_cdrom);
  unique = u;
}

append_hardware-IsListed :
    (x : Hardware) (s : Hardwares)
    → (is_nil x.device ≡ true) ⊎ (has_device x.device s.list ≡ false)
    → IsListed s
    → IsListed (append_hardware x s)
unfolding append_hardware
append_hardware-IsListed x s new v =
    tally-IsListed x.type (record s { list = s.list ++ x ∷ [] }) s.list v.networks v.harddisks
      v.cdroms (λ p. count_type-append p s.list x) (append-IsUnique s.list x v.unique new)

new_device :
    (device : Option Bytes) (xs : List Hardware)
    → is_duplicate device xs ≡ false
    → (is_nil (or_empty device) ≡ true) ⊎ (has_device (or_empty device) xs ≡ false)
unfolding is_duplicate or_empty
new_device none xs e = inl refl
new_device (some d) xs e = inr e

-- Every call of hardwareadd keeps the list: each tally is the number of the entries of its type, and no
-- device with a name stands in it twice.
pub hardwareadd-IsListed :
    (type : Media) (module_name device vendor description : Option Bytes) (vendorid modelid : ℕ)
    (s : Hardwares)
    → IsListed s
    → IsListed (hardwareadd type module_name device vendor description vendorid modelid s)
unfolding hardwareadd
hardwareadd-IsListed type module_name device vendor description vendorid modelid s v =
    elim (Bool-cases (is_duplicate device s.list)) [
      | inl old ↦ rw old v
      | inr new ↦ rw new (append_hardware-IsListed _ s (new_device device s.list new) v)
    ]
