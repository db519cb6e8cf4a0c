-- ===== src/Progs/Ipsec/Tunnels.antt =====
-- What `decode_line` accepts, and the states of the scan over the tunnels.
use ipcop_alpine.Prelude.{
  ℕ, ◌+◌, ◌≡◌, ◌≢◌, refl, ◌⊎◌, inl, inr, true, ◌||◌, List, [], ◌∷◌, some, ◌==◌, arith, length,
  get_or, Bool-cases, Option-cases, ap, ◌↔◌, sym, subst,
}
use ipcop_alpine.Cstring.{Bytes, codes, strcmp_eq, all_in, chop_newline, strsep_fields}
use ipcop_alpine.Cstring.Laws.{strcmp_eq_iff}
use ipcop_alpine.Valid.{letters_numbers, valid_device}
use ipcop_alpine.Ethernet.{Ethernet}
use ipcop_alpine.Progs.Ipsec.{
  Tunnel, Scan, check_tunnel, decode_fields, decode_line, scan_red, scan_blue, scan_lines,
}

-- A line of 30 fields, the second "on", with a name of letters and digits, a known type and a known
-- interface; the tunnel holds its fields 0, 2, 4 and 27.
pub record IsTunnel (fields : List Bytes) (t : Tunnel) : Type 0 where
  size : length fields ≡ 30
  enabled : get_or fields 1 [] ≡ codes "on"
  key_field : t.key ≡ get_or fields 0 []
  name_field : t.name ≡ get_or fields 2 []
  type_field : t.type ≡ get_or fields 4 []
  interface_field : t.interface ≡ get_or fields 27 []
  name_bytes : all_in letters_numbers t.name ≡ true
  type_known : (t.type ≡ codes "host") ⊎ (t.type ≡ codes "net")
  interface_known : (t.interface ≡ codes "RED") ⊎ (t.interface ≡ codes "BLUE")

record IsChecked (count : ℕ) (t : Tunnel) : Type 0 where
  counted : count ≡ 30
  good_name : all_in letters_numbers t.name ≡ true
  good_type : (strcmp_eq t.type (codes "host") || strcmp_eq t.type (codes "net")) ≡ true
  good_interface :
      (strcmp_eq t.interface (codes "RED") || strcmp_eq t.interface (codes "BLUE")) ≡ true

check_tunnel-IsChecked :
    (count : ℕ) (t t' : Tunnel) → check_tunnel count t ≡ some t' → (t ≡ t') × IsChecked count t
unfolding check_tunnel
check_tunnel-IsChecked count t t' e =
    let checked : IsChecked count t = record {
      counted = ground arith;
      good_name = ground arith;
      good_type = ground arith;
      good_interface = ground arith;
    } in
    (ground arith, checked)

either_text : (s a b : Bytes) → (strcmp_eq s a || strcmp_eq s b) ≡ true → (s ≡ a) ⊎ (s ≡ b)
either_text s a b e = ground (arith, strcmp_eq_iff s a, strcmp_eq_iff s b)

text_either : (s a b : Bytes) → (s ≡ a) ⊎ (s ≡ b) → (strcmp_eq s a || strcmp_eq s b) ≡ true
text_either s a b e = ground (arith, strcmp_eq_iff s a, strcmp_eq_iff s b)

abbrev line_tunnel : Bytes → Bytes → List Bytes → Tunnel
line_tunnel key name more = record {
  key = key;
  name = name;
  type = get_or more 1 [];
  interface = get_or more 24 [];
}

IsTunnel-decode_fields :
    (fields : List Bytes) (t : Tunnel) → IsTunnel fields t → decode_fields fields ≡ some t
unfolding decode_fields check_tunnel
IsTunnel-decode_fields [] t h = absurd (omega (arith, h.size))
IsTunnel-decode_fields (key ∷ []) t h = absurd (omega (arith, h.size))
IsTunnel-decode_fields (key ∷ on ∷ []) t h = absurd (omega (arith, h.size))
IsTunnel-decode_fields (key ∷ on ∷ name ∷ more) t h =
    let same : line_tunnel key name more ≡ t = λ i. record {
      key = sym h.key_field i;
      name = sym h.name_field i;
      type = sym h.type_field i;
      interface = sym h.interface_field i;
    } in
    let g = subst (IsTunnel (key ∷ on ∷ name ∷ more)) (sym same) h in
    let counted : ((length more + 3) == 30) ≡ true = ground (arith, h.size) in
    rw
      (
        (strcmp_eq_iff on (codes "on")).1 h.enabled,
        counted,
        g.name_bytes,
        text_either _ _ _ g.type_known,
        text_either _ _ _ g.interface_known,
      )
      (ap some same)

decode_fields-IsTunnel :
    (fields : List Bytes) (t : Tunnel) → decode_fields fields ≡ some t → IsTunnel fields t
unfolding decode_fields
decode_fields-IsTunnel [] t e = cc
decode_fields-IsTunnel (key ∷ []) t e = cc
decode_fields-IsTunnel (key ∷ on ∷ []) t e = cc
decode_fields-IsTunnel (key ∷ on ∷ name ∷ more) t e =
    elim (Bool-cases (strcmp_eq on (codes "on"))) [
      | inr off ↦ let e' = rw off at e in cc
      | inl good ↦
          let e' = rw good at e in
          let (same, c) = check_tunnel-IsChecked _ _ t e' in
          let found : IsTunnel (key ∷ on ∷ name ∷ more) (line_tunnel key name more) = record {
            size = omega (arith, c.counted);
            enabled = (strcmp_eq_iff on (codes "on")).0 good;
            key_field = refl;
            name_field = refl;
            type_field = refl;
            interface_field = refl;
            name_bytes = c.good_name;
            type_known = either_text _ _ _ c.good_type;
            interface_known = either_text _ _ _ c.good_interface;
          } in
          subst (IsTunnel (key ∷ on ∷ name ∷ more)) same found
    ]

-- `decode_line` accepts exactly the lines of 30 fields whose second field is "on", with a name of
-- letters and digits, the type host or net and the interface RED or BLUE, in the fields 2, 4 and 27;
-- these, and the field 0, are what it fills in.
pub decode_line-IsTunnel :
    (s : Bytes) (t : Tunnel)
    → (decode_line s ≡ some t) ↔ IsTunnel (strsep_fields [] (chop_newline s)) t
unfolding decode_line
decode_line-IsTunnel s t = (decode_fields-IsTunnel _ t, IsTunnel-decode_fields _ t)

-- The result of a scan that began without an interface: RED is unused, or good and on a valid device;
-- BLUE is unused, in error where there is no card, or good where there is one.
pub record IsScanned (e : Ethernet) (s : Scan) : Type 0 where
  pub red_state : (s.enable_red ≡ 0) ⊎ ((s.enable_red ≡ 2) × (valid_device e.red_device ≡ true))
  pub blue_state :
      (s.enable_blue ≡ 0)
      ⊎ (((s.enable_blue ≡ 1) × (e.blue_card.count ≡ 0))
          ⊎ ((s.enable_blue ≡ 2) × (e.blue_card.count ≢ 0)))

scan_tunnel-IsScanned :
    (e : Ethernet) (t : Tunnel) (s : Scan)
    → IsScanned e s
    → IsScanned e (record {
      enable_red = scan_red e t s.enable_red;
      enable_blue = scan_blue e t s.enable_blue;
    })
unfolding scan_red scan_blue
scan_tunnel-IsScanned e t s h = record {
  red_state = ground (arith, h.red_state);
  blue_state = ground (arith, h.blue_state);
}

-- Every state of the scan, from a scanned state on and whatever the lines are, is a scanned state.
pub scan_lines-IsScanned :
    (e : Ethernet) (lines : List Bytes) (s : Scan)
    → IsScanned e s
    → IsScanned e (scan_lines e lines s)
unfolding scan_lines
scan_lines-IsScanned e [] s h = h
scan_lines-IsScanned e (line ∷ lines) s h = elim (Option-cases (decode_line line)) [
  | inl skipped ↦ rw (skipped, scan_lines) (scan_lines-IsScanned e lines s h)
  | inr (t, found) ↦
      rw (found, scan_lines) (scan_lines-IsScanned e lines _ (scan_tunnel-IsScanned e t s h))
]
