-- ===== src/Progs/Accounting/Interfaces.antt =====
-- Which interfaces accountingctrl accounts.
use ipcop_alpine.Prelude.{
  ◌≡◌, ◌≤◌, refl, Bool, true, false, not, ◌&&◌, List, [], ◌∷◌, ◌++◌, ◌==◌, if◌then◌else◌, arith,
  All, All-append,
}
use ipcop_alpine.Cstring.{Bytes, codes, string_size, snprintf, text_of, is_nil}
use ipcop_alpine.Ethernet.{Colour, colour_text, is_red, Ethernet, card, all_colours}
use ipcop_alpine.Progs.Accounting.{card_interfaces, modem_interface, interfaces}

-- The name of the first card of a colour, such as GREEN_1.
abbrev pub name_of : Colour → Bytes
name_of colour = snprintf string_size (colour_text colour ++ codes "_1")

-- A card of a colour other than RED, the real device of an active RED card, or that of a modem.
pub data IsAccounted (e : Ethernet) : Bytes × Bytes → Type 0 where
  by_card :
      (colour : Colour)
      → is_red colour ≡ false
      → 1 ≤ (card e colour).count
      → IsAccounted e (name_of colour, text_of (card e colour).device)
  by_red :
      (colour : Colour)
      → is_red colour ≡ true
      → 1 ≤ (card e colour).count
      → e.red_active ≡ true
      → IsAccounted e (name_of colour, e.red_device)
  by_modem :
      e.red_card.count ≡ 0
      → is_nil e.red_device ≡ false
      → IsAccounted e (codes "RED_1", e.red_device)

All-if {ℓ} :
    {A : Type ℓ} (P : A → Type 0) (b : Bool) (xs ys : List A)
    → (b ≡ true → All P xs)
    → (b ≡ false → All P ys)
    → All P (if b then xs else ys)
All-if P true xs ys f g = f refl
All-if P false xs ys f g = g refl

card_interfaces-IsAccounted :
    (e : Ethernet) (colours : List Colour) → All (IsAccounted e) (card_interfaces e colours)
unfolding card_interfaces
card_interfaces-IsAccounted e [] = tt
card_interfaces-IsAccounted e (colour ∷ colours) =
    let rest = card_interfaces-IsAccounted e colours in
    All-if (IsAccounted e) ((card e colour).count == 0) _ _ (λ _. rest)
      λ there.
        All-if (IsAccounted e) (is_red colour) _ _
          (λ r.
            All-if (IsAccounted e) e.red_active _ _
              (λ active. (by_red colour r (ground arith) active, rest)) (λ _. rest))
          (λ plain. (by_card colour plain (ground arith), rest))

modem_interface-IsAccounted : (e : Ethernet) → All (IsAccounted e) (modem_interface e)
unfolding modem_interface
modem_interface-IsAccounted e =
    All-if (IsAccounted e) (e.red_card.count == 0 && not (is_nil e.red_device)) _ _
      (λ modem. (by_modem (ground arith) (ground arith), tt)) (λ _. tt)

-- Every interface that is accounted is that of a card of GREEN, BLUE or ORANGE, the real device of
-- RED where RED has a card and is active, or the named device of a RED without a card.
pub interfaces-IsAccounted : (e : Ethernet) → All (IsAccounted e) (interfaces e)
unfolding interfaces
interfaces-IsAccounted e =
    All-append (IsAccounted e) (card_interfaces e all_colours) (modem_interface e)
      (card_interfaces-IsAccounted e all_colours) (modem_interface-IsAccounted e)
