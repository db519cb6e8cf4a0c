-- ===== src/Ethernet/Laws.antt =====
-- What a successful `read_ethernet_settings` leaves in the structure, and that it exits only with 1.
use ipcop_alpine.Prelude.{
  ℕ, ◌≡◌, ◌≢◌, ◌≤◌, ◌⊎◌, inl, inr, refl, Bool, true, false, ◌||◌, [], Option, none, some, ◌==◌, ltb,
  arith, Bool-cases,
}
use ipcop_alpine.Cstring.{Bytes, codes}
use ipcop_alpine.Kv.{Kv}
use ipcop_alpine.Kv.File.{read_kv_from_file}
use ipcop_alpine.Number.{is_negative}
use ipcop_alpine.Valid.{valid_device}
use ipcop_alpine.Os.{Os, History, Out, done, exited, M, pure, ◌>>=◌, choose, exit}
use ipcop_alpine.Os.Returns.{Returns, returns, after_value, Returns-call}
use ipcop_alpine.Ethernet.{
  Colour, green, red, blue, orange, unassigned, Card, no_card, Ethernet, card, zapped, all_colours,
  read_ethernet_key, read_card, read_row, read_colour, read_colours, give_up, red_file,
  finish_settings, finish_red, read_ethernet_settings,
}

-- A row that can be used: no card, or one card with all that it needs.
pub record IsComplete (k : Card) : Type 0 where
  pub at_most_one : k.count ≤ 1
  pub device_set : k.count ≡ 1 → k.device ≢ none
  pub address_set : k.count ≡ 1 → k.address ≢ none
  pub netmask_set : k.count ≡ 1 → k.netmask ≢ none
  pub netaddress_set : k.count ≡ 1 → k.netaddress ≢ none

read_card-IsComplete :
    (kv : Kv) (colour : Colour) (k : Card)
    → k.count ≤ 1
    → (read_card kv colour k).1 ≡ true
    → IsComplete (read_card kv colour k).0
unfolding read_card
read_card-IsComplete kv colour k h e = record {
  at_most_one = ground arith;
  device_set = ground arith;
  address_set = ground arith;
  netmask_set = ground arith;
  netaddress_set = ground arith;
}

read_row-IsComplete :
    (kv : Kv) (colour : Colour) (n : ℕ)
    → (read_row kv colour n).1 ≡ true
    → IsComplete (read_row kv colour n).0
unfolding read_row
read_row-IsComplete kv colour n e = elim (Bool-cases (is_negative n || ltb 1 n)) [
  | inl bad ↦ cc (rw bad at e)
  | inr fine ↦ elim (Bool-cases (n == 0)) [
    | inl empty ↦ rw fine (
        rw empty (record {
          at_most_one = ground arith;
          device_set = ground arith;
          address_set = ground arith;
          netmask_set = ground arith;
          netaddress_set = ground arith;
        }))
    | inr one ↦ rw fine (
        rw one (
          read_card-IsComplete kv colour (record no_card { count = n }) (ground arith)
            (rw one at (rw fine at e))))
  ]
]

read_colour-IsComplete :
    (kv : Kv) (colour : Colour)
    → (read_colour kv colour).1 ≡ true
    → IsComplete (read_colour kv colour).0
unfolding read_colour
read_colour-IsComplete kv colour e = read_row-IsComplete kv colour _ e

record AllRows (kv : Kv) (e e' : Ethernet) : Type 0 where
  rows : e' ≡ record e {
    green_card = (read_colour kv green).0;
    red_card = (read_colour kv red).0;
    blue_card = (read_colour kv blue).0;
    orange_card = (read_colour kv orange).0;
  }
  green_good : (read_colour kv green).1 ≡ true
  red_good : (read_colour kv red).1 ≡ true
  blue_good : (read_colour kv blue).1 ≡ true
  orange_good : (read_colour kv orange).1 ≡ true

read_colours-AllRows :
    (kv : Kv) (e : Ethernet)
    → (read_colours kv all_colours e).1 ≡ true
    → AllRows kv e (read_colours kv all_colours e).0
unfolding read_colours
read_colours-AllRows kv e h = record {
  rows = ground arith;
  green_good = ground arith;
  red_good = ground arith;
  blue_good = ground arith;
  orange_good = ground arith;
}

no_card-IsComplete : IsComplete no_card
no_card-IsComplete = record {
  at_most_one = omega arith;
  device_set = λ e. absurd (omega (arith, e));
  address_set = λ e. absurd (omega (arith, e));
  netmask_set = λ e. absurd (omega (arith, e));
  netaddress_set = λ e. absurd (omega (arith, e));
}

-- After the loop over all colours without a failure, every row can be used.
AllRows-IsComplete :
    (kv : Kv) (e e' : Ethernet) → AllRows kv e e' → (colour : Colour) → IsComplete (card e' colour)
AllRows-IsComplete kv e e' w green = rw w.rows (read_colour-IsComplete kv green w.green_good)
AllRows-IsComplete kv e e' w red = rw w.rows (read_colour-IsComplete kv red w.red_good)
AllRows-IsComplete kv e e' w blue = rw w.rows (read_colour-IsComplete kv blue w.blue_good)
AllRows-IsComplete kv e e' w orange = rw w.rows (read_colour-IsComplete kv orange w.orange_good)
AllRows-IsComplete kv e e' w unassigned = no_card-IsComplete

-- What a caller can rely on.
pub record IsUsable (e : Ethernet) : Type 0 where
  pub complete : (colour : Colour) → IsComplete (card e colour)
  pub red_device_valid : (e.red_device ≡ []) ⊎ (valid_device e.red_device ≡ true)

red_type_IsComplete :
    (e : Ethernet) (t : Option Bytes)
    → ((colour : Colour) → IsComplete (card e colour))
    → (colour : Colour) → IsComplete (card (record e { red_type = t }) colour)
red_type_IsComplete e t h green = h green
red_type_IsComplete e t h red = h red
red_type_IsComplete e t h blue = h blue
red_type_IsComplete e t h orange = h orange
red_type_IsComplete e t h unassigned = h unassigned

-- How a run may end: with the result 0 and a usable structure, with the result 1 where it should
-- not exit, or by `exit(1)` where it should.
pub data Ends (exitonerror : Bool) : Out (ℕ × Ethernet) → Type 0 where
  usable : {e : Ethernet} {h : History} → IsUsable e → Ends exitonerror (done (0, e) h)
  refused : {e : Ethernet} {h : History} → exitonerror ≡ false → Ends exitonerror (done (1, e) h)
  left : {h : History} → exitonerror ≡ true → Ends exitonerror (exited 1 h)

give_up-Ends : (os : Os) (b : Bool) (e : Ethernet) (h : History) → Ends b (give_up os b e h)
unfolding give_up choose exit pure
give_up-Ends os true e h = left refl
give_up-Ends os false e h = refused refl

module _ (os : Os) where
  finish_settings-Ends :
      (b : Bool) (kv : Kv) (e : Ethernet) (h : History)
      → (e.red_device ≡ []) ⊎ (valid_device e.red_device ≡ true)
      → Ends b (finish_settings os b kv e h)
  unfolding finish_settings choose pure
  finish_settings-Ends b kv e h v = elim (Bool-cases (read_colours kv all_colours e).1) [
    | inl good ↦
        rw (good, choose)
          (usable (record {
            complete =
                red_type_IsComplete (read_colours kv all_colours e).0
                  (read_ethernet_key kv red (codes "TYPE"))
                  (AllRows-IsComplete kv e (read_colours kv all_colours e).0
                    (read_colours-AllRows kv e good));
            red_device_valid = rw (read_colours-AllRows kv e good).rows v;
          }))
    | inr bad ↦ rw (bad, choose) (give_up-Ends os b _ h)
  ]

  finish_red-Ends :
      (b : Bool) (kv : Kv) (e : Ethernet) (o : Option Bytes) (h : History)
      → Ends b (finish_red os b kv e o h)
  unfolding finish_red choose
  finish_red-Ends b kv e none h = finish_settings-Ends b kv _ h (inl refl)
  finish_red-Ends b kv e (some iface) h = elim (Bool-cases (valid_device iface)) [
    | inl good ↦ rw (good, choose) (finish_settings-Ends b kv _ h (inr good))
    | inr bad ↦ rw (bad, choose) (give_up-Ends os b e h)
  ]

module _ (os : Os) where
  read_kv_from_file-Returns : (kv : Kv) (file : Bytes) → Returns (read_kv_from_file os kv file)
  unfolding read_kv_from_file
  read_kv_from_file-Returns kv file = search returns depth 20

  red_file-Returns : (file value : Bytes) → Returns (red_file os file value)
  unfolding red_file
  red_file-Returns file value = search returns depth 20

  Ends-bind :
      {A : Type 0} {b : Bool} (m : M A) (f : A → M (ℕ × Ethernet)) (h : History)
      → Returns m
      → ((a : A) (h' : History) → Ends b (f a h'))
      → Ends b ((m >>= f) h)
  Ends-bind m f h r k = let (a, h', e) = r.value h in rw (after_value m f h h' a e) (k a h')

  Ends-choose :
      {b : Bool} (c : Bool) (m k : M (ℕ × Ethernet)) (h : History)
      → Ends b (m h)
      → Ends b (k h)
      → Ends b (choose c m k h)
  unfolding choose
  Ends-choose true m k h em ek = em
  Ends-choose false m k h em ek = ek

  -- Whatever the files hold and the system answers, the run ends in one of these ways. A success
  -- leaves at most one card for each colour, with device, addresses and mask, and a RED device that
  -- is empty or passed VALID_DEVICE.
  pub read_ethernet_settings-Ends :
      (exitonerror : Bool) (h : History)
      → Ends exitonerror (read_ethernet_settings os exitonerror h)
  unfolding read_ethernet_settings
  read_ethernet_settings-Ends b h = Ends-bind _ _ h (read_kv_from_file-Returns [] _) λ r h1.
      Ends-choose _ _ _ h1 (give_up-Ends os b zapped h1) (
        Ends-bind _ _ h1 (Returns-call os _) λ active h2.
          Ends-bind _ _ h2 (red_file-Returns _ _) λ local h3.
            Ends-bind _ _ h3 (red_file-Returns _ _) λ iface h4. finish_red-Ends os b r.1 _ iface h4)
