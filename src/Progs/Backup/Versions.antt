-- ===== src/Progs/Backup/Versions.antt =====
-- Which backups are accepted, on the numbers of the two versions.
use ipcop_alpine.Prelude.{ℕ, ◌+◌, ◌*◌, ◌^◌, ◌≡◌, ◌≢◌, ◌≤◌, ◌<◌, ◌⊎◌, ◌↔◌, true, arith}
use ipcop_alpine.Progs.Backup.{accepts, without_revision}

-- A version number as `getipcopversion` packs it.
abbrev pub pack : ℕ → ℕ → ℕ → ℕ
pack major minor revision = major * 2 ^ 16 + minor * 2 ^ 8 + revision

-- Version a.b.c is at least d.e.f.
abbrev pub AtLeast : ℕ × ℕ × ℕ → ℕ × ℕ × ℕ → Type 0
AtLeast (a, b, c) (d, e, f) = (d < a) ⊎ ((d ≡ a) × ((e < b) ⊎ ((e ≡ b) × (f ≤ c))))

pack-AtLeast :
    (a b c d e f : ℕ)
    → b ≤ 255
    → c ≤ 255
    → e ≤ 255
    → f ≤ 255
    → (pack d e f ≤ pack a b c) ↔ AtLeast (a, b, c) (d, e, f)
pack-AtLeast a b c d e f hb hc he hf = (λ h. ground arith, λ h. ground arith)

without_revision-pack :
    (a b c : ℕ)
    → a ≤ 255
    → b ≤ 255
    → c ≤ 255
    → without_revision (pack a b c) ≡ (a * 2 ^ 8 + b) * 2 ^ 8
unfolding without_revision
without_revision-pack a b c ha hb hc = omega arith

-- On versions with numbers up to 255, of which that of IPCop is not 0.0.0, a backup is accepted
-- exactly where it is at least 1.9.9, and not newer than IPCop or of the same major and minor number.
pub accepts_iff :
    (a b c d e f : ℕ)
    → a ≤ 255
    → b ≤ 255
    → c ≤ 255
    → d ≤ 255
    → e ≤ 255
    → f ≤ 255
    → pack d e f ≢ 0
    → (accepts (pack a b c) (pack d e f) ≡ true)
      ↔ (AtLeast (a, b, c) (1, 9, 9) × (AtLeast (d, e, f) (a, b, c) ⊎ ((a ≡ d) × (b ≡ e))))
unfolding accepts
accepts_iff a b c d e f ha hb hc hd he hf there =
    let old = pack-AtLeast a b c 1 9 9 hb hc (omega arith) (omega arith) in
    let newer = pack-AtLeast d e f a b c he hf hb hc in
    rw (without_revision-pack a b c ha hb hc, without_revision-pack d e f hd he hf)
      ((
        λ h. (old.0 (ground arith), ground (arith, newer)),
        λ h. ground (arith, old.1 h.0, newer, h.1),
      ))
