-- ===== src/Progs/Dhcp/Check.antt =====
-- restartdhcp touches dnsmasq only where every enabled card has a device.
use ipcop_alpine.Prelude.{
  ℕ, ◌+◌, ◌≡◌, ◌≤◌, ◌⊎◌, inl, inr, refl, true, List, [], ◌∷◌, All, ltb, arith, Bool-cases,
  if◌then◌else◌,
}
use ipcop_alpine.Kv.{Kv}
use ipcop_alpine.Os.{History, done, exited, pure, exit, choose}
use ipcop_alpine.Ethernet.{Colour, Ethernet, card}
use ipcop_alpine.Progs.Dhcp.{is_enabled, count_enabled}

-- How many of the colours are enabled.
abbrev pub enabled_among : Kv → List Colour → ℕ
enabled_among kv [] = 0
enabled_among kv (colour ∷ colours) =
    if is_enabled kv colour then enabled_among kv colours + 1 else enabled_among kv colours

-- Every enabled colour has a card.
abbrev pub HasDevices : Kv → Ethernet → List Colour → Type 0
HasDevices kv e = All (λ colour. is_enabled kv colour ≡ true → 1 ≤ (card e colour).count)

-- The check of restartdhcp goes on, with the number of the enabled cards, exactly if each of them
-- has a device, and exits with 1 otherwise. Either way it makes no call.
pub count_enabled_lem :
    (kv : Kv) (e : Ethernet) (colours : List Colour) (n : ℕ) (h : History)
    → (HasDevices kv e colours
        × (count_enabled kv e colours n h ≡ done (n + enabled_among kv colours) h))
      ⊎ ((¬ HasDevices kv e colours) × (count_enabled kv e colours n h ≡ exited 1 h))
unfolding count_enabled pure exit choose
count_enabled_lem kv e [] n h = inl (tt, ground arith)
count_enabled_lem kv e (colour ∷ colours) n h = elim (Bool-cases (is_enabled kv colour)) [
  | inr off ↦
      rw (off, choose)
        (elim (count_enabled_lem kv e colours n h) [
          | inl (w, r) ↦ inl ((λ on. cc, w), r)
          | inr (w, r) ↦ inr (λ all. w all.1, r)
        ])
  | inl on ↦ elim (Bool-cases (ltb (card e colour).count 1)) [
    | inl missing ↦
        rw (on, choose)
          (rw (missing, choose) (inr (λ all. absurd (ground (arith, all.0 refl)), refl)))
    | inr there ↦
        rw (on, choose)
          (rw (there, choose)
            (elim (count_enabled_lem kv e colours (n + 1) h) [
              | inl (w, r) ↦ inl ((λ _. ground arith, w), ground arith)
              | inr (w, r) ↦ inr (λ all. w all.1, r)
            ]))
  ]
]
