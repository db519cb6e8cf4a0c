-- ===== src/Installer/Restore/Names.antt =====
-- Which names on a key are taken for a backup of the host, and which one is restored.
use ipcop_alpine.Prelude.{
  ◌+◌, ◌≡◌, refl, ◌↔◌, true, ◌&&◌, [], ◌∷◌, ◌++◌, ◌==◌, arith, length, length-append, ap,
}
use ipcop_alpine.Cstring.{Bytes, starts_with}
use ipcop_alpine.Installer.Restore.{filter_dat}

starts_with-append : (p t : Bytes) → starts_with p (p ++ t) ≡ true
unfolding starts_with
starts_with-append [] t = refl
starts_with-append (x ∷ p) t = ground (arith, starts_with-append p t)

append_of_starts_with : (p s : Bytes) → starts_with p s ≡ true → (t : Bytes) × (s ≡ p ++ t)
unfolding starts_with
append_of_starts_with [] s e = (s, refl)
append_of_starts_with (x ∷ p) [] e = cc
append_of_starts_with (x ∷ p) (y ∷ s) e =
    let (t, q) = append_of_starts_with p s (ground arith) in (t, ground (arith, q))

-- The filter accepts exactly the host's name with 24 bytes behind it, whatever these are.
pub filter_dat_iff :
    (host name : Bytes)
    → (filter_dat host name ≡ true) ↔ ((t : Bytes) × (name ≡ host ++ t) × (length t ≡ 24))
unfolding filter_dat
filter_dat_iff host name = (forward, backward)
  where
    forward :
        (length name == 24 + length host && starts_with host name) ≡ true
        → (t : Bytes) × (name ≡ host ++ t) × (length t ≡ 24)
    forward e =
        let (t, q) = append_of_starts_with host name (ground arith) in
        let n : length name ≡ 24 + length host = ground arith in
        (t, q, omega (arith, n, ap length q, length-append host t))

    backward :
        (t : Bytes) × (name ≡ host ++ t) × (length t ≡ 24)
        → (length name == 24 + length host && starts_with host name) ≡ true
    backward (t, q, n) = rw (q, starts_with-append host t) (ground (arith, length-append host t, n))
