-- ===== src/Os/Guard.antt =====
-- Commands that are run only behind another one that ended well: a package is set up only behind the
-- check of its signature.
use ipcop_alpine.Prelude.{
  ℕ, ◌≡◌, refl, Bool, true, false, ◌&&◌, ◌||◌, [], ◌∷◌, arith, Bool-cases, inl, inr,
}
use ipcop_alpine.Cstring.{Bytes, strcmp_eq}
use ipcop_alpine.Cstring.Laws.{strcmp_eq_refl}
use ipcop_alpine.Os.{
  Call, History, Os, Out, done, exited, crashed, replaced, M, ◌>>=◌, choose, call, history_of,
  system,
}
use ipcop_alpine.Os.Footprint.{Makes}

-- `key` is the command that has to come first, `good` the test of its status, and `locked` tells the
-- commands that wait for it.
pub record Lock : Type 0 where
  pub key : Bytes
  pub good : ℕ → Bool
  pub locked : Bytes → Bool

-- Whether the key has been run with a good status.
unfoldable pub is_unlocked : Os → Lock → History → Bool
is_unlocked os l [] = false
is_unlocked os l (system command ∷ h) =
    let before = is_unlocked os l h in
    (strcmp_eq command l.key && l.good (os.status h (system command))) || before
is_unlocked os l (_ ∷ h) = is_unlocked os l h

-- Every locked command stands behind a key with a good status.
unfoldable pub IsGuarded : Os → Lock → History → Type 0
IsGuarded os l [] = Unit
IsGuarded os l (system command ∷ h) =
    (l.locked command ≡ true → is_unlocked os l h ≡ true) × IsGuarded os l h
IsGuarded os l (_ ∷ h) = IsGuarded os l h

-- Calls that run no locked command, and all calls.
abbrev pub NotLocked : Lock → Call → Type 0
NotLocked l (system command) = l.locked command ≡ false
NotLocked l _ = Unit

abbrev pub AnyCall : Call → Type 0
AnyCall c = Unit

module _ (os : Os) (l : Lock) where
  pub record Guards {A : Type 0} (m : M A) : Type 0 where
    pub guards : (h : History) → IsGuarded os l h → IsGuarded os l (history_of (m h))

  plain_kept : (c : Call) (h : History) → NotLocked l c → IsGuarded os l h → IsGuarded os l (c ∷ h)
  unfolding IsGuarded
  plain_kept (system command) h n g = ((λ e. ground (arith, n, e)), g)
  plain_kept _ h n g = g

  open_kept :
      (c : Call) (h : History)
      → IsGuarded os l h × (is_unlocked os l h ≡ true)
      → IsGuarded os l (c ∷ h) × (is_unlocked os l (c ∷ h) ≡ true)
  unfolding IsGuarded is_unlocked
  open_kept (system command) h (g, u) = (((λ e. u), g), ground (arith, u))
  open_kept _ h (g, u) = (g, u)

  pub Guards-of_Makes : {A : Type 0} {m : M A} → Makes (NotLocked l) m → Guards m
  Guards-of_Makes k = record { guards = k.stays (IsGuarded os l) plain_kept }

  -- One guarded part behind another.
  pub Guards-then :
      {A B : Type 0} {m : M A} {f : A → M B}
      → Guards m
      → ((a : A) → Guards (f a))
      → Guards (m >>= f)
  unfolding ◌>>=◌
  Guards-then {A} {B} {m} {f} gm gf = record { guards = λ h g. go (m h) (gm.guards h g) }
    where
      go :
          (o : Out A)
          → IsGuarded os l (history_of o)
          → IsGuarded os l (
              history_of (
                let r : Out B = elim o [
                  | done a h' ↦ f a h'
                  | exited n h' ↦ exited n h'
                  | crashed h' ↦ crashed h'
                  | replaced h' ↦ replaced h'
                ] in
                r))
      go (done a h') g = (gf a).guards h' g
      go (exited n h') g = g
      go (crashed h') g = g
      go (replaced h') g = g

  -- Parts without a locked command, in front.
  pub Guards-bind :
      {A B : Type 0} {m : M A} {f : A → M B}
      → Makes (NotLocked l) m
      → ((a : A) → Guards (f a))
      → Guards (m >>= f)
  Guards-bind km gf = Guards-then (Guards-of_Makes km) gf

  pub Guards-choose :
      {A : Type 0} (b : Bool) {m k : M A} → Guards m → Guards k → Guards (choose b m k)
  unfolding choose
  Guards-choose true gm gk = gm
  Guards-choose false gm gk = gk

  -- The key, and what is done where its status is good: that may run any command.
  pub Guards-key :
      {A : Type 0} (b : ℕ → Bool) {m : ℕ → M A} {k : M A}
      → l.locked l.key ≡ false
      → ((rc : ℕ) → b rc ≡ false → l.good rc ≡ true)
      → ((rc : ℕ) → Makes (NotLocked l) (m rc))
      → Makes AnyCall k
      → Guards (call os (system l.key) >>= λ rc. choose (b rc) (m rc) k)
  unfolding call ◌>>=◌ choose IsGuarded is_unlocked
  Guards-key b {m} {k} plain fine km kk = record {
    guards = λ h g.
        let rc = os.status h (system l.key) in
        let g' : IsGuarded os l (system l.key ∷ h) = plain_kept (system l.key) h plain g in
        elim (Bool-cases (b rc)) [
          | inl e ↦ rw e ((Guards-of_Makes (km rc)).guards (system l.key ∷ h) g')
          | inr e ↦ rw e (
              (kk.stays (λ h. IsGuarded os l h × (is_unlocked os l h ≡ true))
                (λ c h s q. open_kept c h q) (system l.key ∷ h)
                (g', rw (strcmp_eq_refl l.key, fine rc e) refl)).0)
        ];
  }
