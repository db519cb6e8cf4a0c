-- ===== src/Services/Squid/Bypass.antt =====
-- The networks that restartsquid takes past the proxy, and the lines at which it faults.
use ipcop_alpine.Prelude.{
  ◌≡◌, ◌≢◌, ◌↔◌, ◌⊎◌, inl, inr, refl, true, false, [], ◌∷◌, Option, none, some, ◌≤◌, length, get_or,
  arith, Bool-cases, sym, ◌∙◌,
}
use ipcop_alpine.Cstring.{
  Bytes, codes, strcmp_eq, has_byte, all_in, before, chop_newline, strsep_fields,
}
use ipcop_alpine.Valid.{letters_numbers, valid_ip, valid_short_mask}
use ipcop_alpine.Services.Squid.{
  TunnelLine, skip, fault, network, mask_of, check_mask, check_network, check_fields, bypass_line,
  is_slash,
}

-- A line whose tunnel the proxy is to know: long enough, 25 fields or more, enabled, between
-- networks, with a name of letters and digits.
pub record IsNetLine (s : Bytes) : Type 0 where
  long : 25 ≤ length s
  fields_count : 25 ≤ length (strsep_fields [] (chop_newline s))
  good_name : all_in letters_numbers (get_or (strsep_fields [] (chop_newline s)) 2 []) ≡ true
  is_net : strcmp_eq (get_or (strsep_fields [] (chop_newline s)) 4 []) (codes "net") ≡ true
  is_on : strcmp_eq (get_or (strsep_fields [] (chop_newline s)) 1 []) (codes "on") ≡ true

-- The field that names the network.
abbrev pub network_field : Bytes → Bytes
network_field s = get_or (strsep_fields [] (chop_newline s)) 12 []

net_line-check : (s : Bytes) → IsNetLine s → bypass_line s ≡ check_network (network_field s)
unfolding bypass_line check_fields
net_line-check s h = ground (arith, h.long, h.fields_count, h.good_name, h.is_net, h.is_on)

check_mask-network :
    (address a m : Bytes) (o : Option Bytes)
    → check_mask address o ≡ network a m
    → (a ≡ address) × (o ≡ some m) × ((valid_ip m ≡ true) ⊎ (valid_short_mask m ≡ true))
unfolding check_mask
check_mask-network address a m none e = cc
check_mask-network address a m (some mask) e = ground arith

network-check_mask :
    (address m : Bytes)
    → (valid_ip m ≡ true) ⊎ (valid_short_mask m ≡ true)
    → check_mask address (some m) ≡ network address m
unfolding check_mask
network-check_mask address m h = ground arith

check_network-network :
    (s a m : Bytes)
    → check_network s ≡ network a m
    → (a ≡ before is_slash s)
      × (mask_of s ≡ some m)
      × (valid_ip a ≡ true)
      × ((valid_ip m ≡ true) ⊎ (valid_short_mask m ≡ true))
unfolding check_network
check_network-network s a m e = elim (Bool-cases (valid_ip (before is_slash s))) [
  | inr bad ↦ let e' = rw bad at e in cc
  | inl good ↦
      let (same, found, v) = check_mask-network _ a m (mask_of s) (rw good at e) in
      (same, found, rw same good, v)
]

network-check_network :
    (s a m : Bytes)
    → a ≡ before is_slash s
    → mask_of s ≡ some m
    → valid_ip a ≡ true
    → (valid_ip m ≡ true) ⊎ (valid_short_mask m ≡ true)
    → check_network s ≡ network a m
unfolding check_network
network-check_network s a m same found v w =
    rw (sym same) (rw (v, found) (network-check_mask a m w))

no_slash : (s : Bytes) → has_byte b'/' s ≡ false → before is_slash s ≡ s
unfolding has_byte before is_slash
no_slash [] e = refl
no_slash (c ∷ s) e = ground (arith, no_slash s)

check_mask-fault :
    (address : Bytes) (o : Option Bytes) → (check_mask address o ≡ fault) ↔ (o ≡ none)
unfolding check_mask
check_mask-fault address none = (λ e. refl, λ e. refl)
check_mask-fault address (some mask) = (λ e. ground arith, λ e. cc)

mask_of-none : (s : Bytes) → (mask_of s ≡ none) ↔ (has_byte b'/' s ≡ false)
unfolding mask_of
mask_of-none s = (λ e. ground arith, λ e. rw e refl)

check_network-fault :
    (s : Bytes) → (check_network s ≡ fault) ↔ ((valid_ip s ≡ true) × (has_byte b'/' s ≡ false))
unfolding check_network
check_network-fault s = (
  λ e. elim (Bool-cases (valid_ip (before is_slash s))) [
    | inr bad ↦ let e' = rw bad at e in cc
    | inl good ↦
        let bare = (mask_of-none s).0 ((check_mask-fault _ (mask_of s)).0 (rw good at e)) in
        (rw (sym (no_slash s bare)) good, bare)
  ],
  λ (good, bare).
      rw (no_slash s bare) (rw good ((check_mask-fault s (mask_of s)).1 ((mask_of-none s).1 bare))),
)

-- What is not passed over is such a line.
bypass_line-IsNetLine : (s : Bytes) (t : TunnelLine) → bypass_line s ≡ t → t ≢ skip → IsNetLine s
unfolding bypass_line check_fields
bypass_line-IsNetLine s t e h = record {
  long = ground arith;
  fields_count = ground arith;
  good_name = ground arith;
  is_net = ground arith;
  is_on = ground arith;
}

-- A network of a tunnel: the two parts of its field, each of the right form.
pub record IsNetwork (s address mask : Bytes) : Type 0 where
  net_line : IsNetLine s
  address_part : address ≡ before is_slash (network_field s)
  mask_part : mask_of (network_field s) ≡ some mask
  address_valid : valid_ip address ≡ true
  mask_valid : (valid_ip mask ≡ true) ⊎ (valid_short_mask mask ≡ true)

-- restartsquid takes past the proxy exactly the networks of the enabled tunnels between networks
-- whose address passes `VALID_IP` and whose mask passes it or `VALID_SHORT_MASK`.
pub bypass_line-IsNetwork :
    (s address mask : Bytes) → (bypass_line s ≡ network address mask) ↔ IsNetwork s address mask
bypass_line-IsNetwork s address mask = (
  λ e.
      let line = bypass_line-IsNetLine s (network address mask) e (λ q. cc) in
      let (a, m, v, w) =
        check_network-network (network_field s) address mask (sym (net_line-check s line) ∙ e) in
      record {
        net_line = line;
        address_part = a;
        mask_part = m;
        address_valid = v;
        mask_valid = w;
      },
  λ h.
      net_line-check s h.net_line
      ∙ network-check_network (network_field s) address mask h.address_part h.mask_part
          h.address_valid h.mask_valid,
)

-- The loop reads through NULL exactly on a line of such a tunnel whose network is an address that
-- passes `VALID_IP`, without a slash.
pub bypass_line-fault :
    (s : Bytes)
    → (bypass_line s ≡ fault) ↔ (
        IsNetLine s
        × (valid_ip (network_field s) ≡ true)
        × (has_byte b'/' (network_field s) ≡ false))
bypass_line-fault s = (
  λ e.
      let line = bypass_line-IsNetLine s fault e (λ q. cc) in
      let (good, bare) =
        (check_network-fault (network_field s)).0 (sym (net_line-check s line) ∙ e) in
      (line, good, bare),
  λ (line, good, bare).
      net_line-check s line ∙ (check_network-fault (network_field s)).1 (good, bare),
)
