-- ===== src/Progs/Shaping/Limits.antt =====
-- The numbers and rules of restartshaping.
use ipcop_alpine.Prelude.{
  ap, ◌∙◌, take-eq_of_le, ℕ, ◌+◌, ◌*◌, ◌/◌, ◌^◌, ◌≡◌, ◌≤◌, ◌<◌, ◌≢◌, refl, true, List, [], ◌∷◌,
  Option, none, some, arith,
}
use ipcop_alpine.Cstring.{snprintf, string_size, Bytes, codes, all_in}
use ipcop_alpine.Valid.{numbers}
use ipcop_alpine.Kv.{Kv, find_kv}
use ipcop_alpine.Number.{atoi, print_decimal}
use ipcop_alpine.Number.Decimal.{atoi-print_decimal, length-print_decimal}
use ipcop_alpine.Progs.Shaping.{
  setting_number, ShapingRates, RatesFit, rates_from, share, commands, rule_of, checked_rule,
  rule_command, proto_number, port_numbers,
}

-- What the rates are for given UPLINK and DOWNLINK.
pub record IsSound (up down : ℕ) (r : ShapingRates) : Type 0 where
  pub up_positive : 0 < up
  pub uplink_below : r.uplink ≤ up
  pub uplink_near : up * 100 < (r.uplink + 1) * 101
  pub downlink_below : r.downlink ≤ down
  pub quantum : r.r2q ≡ up / 16
  pub products_fit : (up * 1024 < 2 ^ 31) × (up * 100 < 2 ^ 31) × (down * 200 < 2 ^ 31)
  pub shares_fit : 8 * r.uplink < 2 ^ 31
  pub shares_below :
      (share 8 r.uplink ≤ r.uplink) × (share 6 r.uplink ≤ r.uplink) × (share 4 r.uplink ≤ r.uplink)

share-le : (tenths n : ℕ) → tenths ≤ 10 → share tenths n ≤ n
unfolding share
share-le tenths n h = grind arith

-- Where UPLINK and DOWNLINK stay below the bound and are accepted, no product overflows an `int`,
-- the rates are rounded down from what was asked for, the uplink by less than a hundredth, and no
-- class gets more than the uplink.
pub rates_from-IsSound :
    (up down : ℕ) {r : ShapingRates}
    → RatesFit up
    → RatesFit down
    → rates_from (some up) (some down) ≡ some r
    → IsSound up down r
unfolding rates_from
rates_from-IsSound up down {r} f g e = record {
  up_positive = ground arith;
  uplink_below = ground arith;
  uplink_near = ground arith;
  downlink_below = ground arith;
  quantum = ground arith;
  products_fit = omega arith;
  shares_fit = ground arith;
  shares_below = (
    share-le 8 r.uplink (omega arith),
    share-le 6 r.uplink (omega arith),
    share-le 4 r.uplink (omega arith),
  );
}

-- The two commands of a rule, and where their parts come from.
pub record IsChecked (iface : Bytes) (lines : List Bytes) : Type 0 where
  pub protocol : Bytes
  pub proto : Bytes
  pub port : Bytes
  pub prio : Bytes
  pub proto_ok : proto_number protocol ≡ some proto
  pub port_ok : all_in port_numbers port ≡ true
  pub prio_ok : all_in numbers prio ≡ true
  pub lines_are :
      lines
      ≡ rule_command iface (codes "14") proto (codes "dport") port prio
        ∷ rule_command iface (codes "15") proto (codes "sport") port prio
        ∷ []

checked_rule-IsChecked :
    (iface protocol : Bytes) (o : Option Bytes) (port prio enabled : Bytes) (lines : List Bytes)
    → proto_number protocol ≡ o
    → checked_rule iface o port prio enabled ≡ commands lines
    → lines ≢ []
    → IsChecked iface lines
unfolding checked_rule
checked_rule-IsChecked iface protocol none port prio enabled lines known e ne = cc
checked_rule-IsChecked iface protocol (some proto) port prio enabled lines known e ne = record {
  protocol = protocol;
  proto_ok = known;
  proto = proto;
  port = port;
  prio = prio;
  port_ok = ground arith;
  prio_ok = ground arith;
  lines_are = ground arith;
}

-- A line of the rules that gives any command gives two, for the two directions, with the number of
-- a known protocol, and a port and a priority that hold nothing but the accepted bytes.
pub rule_of-IsChecked :
    (iface : Bytes) (fields lines : List Bytes)
    → rule_of iface fields ≡ commands lines
    → lines ≢ []
    → IsChecked iface lines
unfolding rule_of
rule_of-IsChecked iface [] lines e ne = cc
rule_of-IsChecked iface (a ∷ []) lines e ne = cc
rule_of-IsChecked iface (a ∷ b ∷ []) lines e ne = cc
rule_of-IsChecked iface (a ∷ b ∷ c ∷ []) lines e ne = cc
rule_of-IsChecked iface (a ∷ b ∷ c ∷ d ∷ more) lines e ne =
    checked_rule-IsChecked iface a (proto_number a) b c d lines refl e ne

-- A setting that is written as the digits of a number below 2 ^ 31 is read as that number.
pub setting_number-print_decimal :
    (kv : Kv) (key : Bytes) (n : ℕ)
    → find_kv kv key ≡ some (print_decimal n)
    → n < 2 ^ 31
    → setting_number kv key ≡ some n
unfolding setting_number
setting_number-print_decimal kv key n e h =
    let whole : snprintf string_size (print_decimal n) ≡ print_decimal n =
      take-eq_of_le 255 (print_decimal n) (omega (arith, length-print_decimal n)) in
    rw (e, setting_number) (ap some (ap atoi whole ∙ atoi-print_decimal n h))
