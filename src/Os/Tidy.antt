-- ===== src/Os/Tidy.antt =====
-- Files that a program creates for itself and must not leave behind: "/etc/ssh/sshd_config.new" blocks
-- every later run, since the programs open it by O_EXCL.
use ipcop_alpine.Prelude.{
  ℕ, ◌≡◌, refl, Bool, true, false, not, ◌&&◌, [], ◌∷◌, ◌==◌, if◌then◌else◌, arith, Bool-cases, inl,
  inr, ap,
}
use ipcop_alpine.Cstring.{Bytes, strcmp_eq}
use ipcop_alpine.Cstring.Laws.{strcmp_eq_refl}
use ipcop_alpine.Os.{
  Call, History, Os, Out, done, exited, crashed, replaced, M, ◌>>=◌, ◌>>◌, choose, call, act,
  history_of, open_exclusive, unlink, rename, minus_one,
}
use ipcop_alpine.Os.Footprint.{Makes}

-- Whether the file was created, and neither removed nor renamed since.
unfoldable pub is_pending : Os → Bytes → History → Bool
is_pending os file [] = false
is_pending os file (open_exclusive f ∷ h) =
    let before = is_pending os file h in
    if strcmp_eq f file && not (os.status h (open_exclusive f) == minus_one) then true else before
is_pending os file (unlink f ∷ h) =
    let before = is_pending os file h in if strcmp_eq f file then false else before
is_pending os file (rename f to ∷ h) =
    let before = is_pending os file h in
    if strcmp_eq f file && not (os.status h (rename f to) == minus_one) then false else before
is_pending os file (_ ∷ h) = is_pending os file h

eq_of_test : (n : ℕ) → (n == minus_one) ≡ true → n ≡ minus_one
eq_of_test n e = ground arith

other_of_test : (b : ℕ → Bool) (n : ℕ) → b minus_one ≡ true → b n ≡ false → (n == minus_one) ≡ false
other_of_test b n fails e = elim (Bool-cases (n == minus_one)) [
  | inl same ↦ let eq = ap b (eq_of_test n same) in cc
  | inr other ↦ other
]

-- Calls that create no file.
abbrev pub NoCreate : Call → Type 0
NoCreate (open_exclusive f) = ⊥
NoCreate _ = Unit

module _ (os : Os) (file : Bytes) where
  -- Where the file is not pending at the start, it is not at the end.
  pub record Tidy {A : Type 0} (m : M A) : Type 0 where
    pub tidy :
        (h : History) → is_pending os file h ≡ false → is_pending os file (history_of (m h)) ≡ false

  -- The file is not pending at the end, however the program was entered.
  pub record Settles {A : Type 0} (m : M A) : Type 0 where
    pub settles : (h : History) → is_pending os file (history_of (m h)) ≡ false

module _ (os : Os) (file : Bytes) where
  not_pending_kept :
      (c : Call) (h : History)
      → NoCreate c
      → is_pending os file h ≡ false
      → is_pending os file (c ∷ h) ≡ false
  unfolding is_pending
  not_pending_kept (open_exclusive f) h s e = elim s [ ]
  not_pending_kept (unlink f) h s e = ground (arith, e)
  not_pending_kept (rename f to) h s e = ground (arith, e)
  not_pending_kept _ h s e = e

  pub Tidy-of_Makes : {A : Type 0} {m : M A} → Makes NoCreate m → Tidy os file m
  Tidy-of_Makes k = record { tidy = k.stays (λ h. is_pending os file h ≡ false) not_pending_kept }

  -- Calls that create nothing, in front.
  pub Tidy-bind :
      {A B : Type 0} {m : M A} {f : A → M B}
      → Makes NoCreate m
      → ((a : A) → Tidy os file (f a))
      → Tidy os file (m >>= f)
  unfolding ◌>>=◌
  Tidy-bind {A} {B} {m} {f} km tf = record { tidy = λ h e. go (m h) ((Tidy-of_Makes km).tidy h e) }
    where
      go :
          (o : Out A)
          → is_pending os file (history_of o) ≡ false
          → is_pending os file (
              history_of (
                let r : Out B = elim o [
                  | done a h' ↦ f a h'
                  | exited n h' ↦ exited n h'
                  | crashed h' ↦ crashed h'
                  | replaced h' ↦ replaced h'
                ] in
                r))
            ≡ false
      go (done a h') e = (tf a).tidy h' e
      go (exited n h') e = e
      go (crashed h') e = e
      go (replaced h') e = e

  pub Tidy-choose :
      {A : Type 0} (b : Bool) {m k : M A}
      → Tidy os file m
      → Tidy os file k
      → Tidy os file (choose b m k)
  unfolding choose
  Tidy-choose true tm tk = tm
  Tidy-choose false tm tk = tk

  pub Settles-act :
      {A : Type 0} (c : Call) {m : M A} → Settles os file m → Settles os file (act os c >> m)
  unfolding act ◌>>=◌
  Settles-act c k = record { settles = λ h. k.settles (c ∷ h) }

  pub Settles-call :
      {A : Type 0} (c : Call) {f : ℕ → M A}
      → ((rc : ℕ) → Settles os file (f rc))
      → Settles os file (call os c >>= f)
  unfolding call ◌>>=◌
  Settles-call c k = record { settles = λ h. (k (os.status h c)).settles (c ∷ h) }

  pub Settles-choose :
      {A : Type 0} (b : Bool) {m k : M A}
      → Settles os file m
      → Settles os file k
      → Settles os file (choose b m k)
  unfolding choose
  Settles-choose true km kk = km
  Settles-choose false km kk = kk

  pub Settles-unlink :
      {A : Type 0} {m : M A} → Tidy os file m → Settles os file (act os (unlink file) >> m)
  unfolding act ◌>>=◌ is_pending
  Settles-unlink k = record {
    settles = λ h. k.tidy (unlink file ∷ h) (rw (strcmp_eq_refl file) refl);
  }

  -- Behind a `rename` that did not fail there is nothing to settle.
  pub Settles-rename :
      {A : Type 0} (to : Bytes) (b : ℕ → Bool) {m k : M A}
      → b minus_one ≡ true
      → Settles os file m
      → Tidy os file k
      → Settles os file (call os (rename file to) >>= λ rc. choose (b rc) m k)
  unfolding call ◌>>=◌ is_pending choose
  Settles-rename to b {m} {k} fails sm tk = record {
    settles = λ h.
        let rc = os.status h (rename file to) in
        elim (Bool-cases (b rc)) [
          | inl e ↦ rw e (sm.settles _)
          | inr n ↦ rw n (tk.tidy _ (rw (strcmp_eq_refl file, other_of_test b rc fails n) refl))
        ];
  }

  -- The program creates the file, where no other program holds it, and settles it.
  pub Tidy-create :
      {A : Type 0} {m : M A} {k : ℕ → M A}
      → Tidy os file m
      → ((rc : ℕ) → Settles os file (k rc))
      → Tidy os file (call os (open_exclusive file) >>= λ rc. choose (rc == minus_one) m (k rc))
  unfolding call ◌>>=◌ is_pending choose
  Tidy-create tm sk = record {
    tidy = λ h e.
        let rc = os.status h (open_exclusive file) in
        elim (Bool-cases (rc == minus_one)) [
          | inl refused ↦ rw refused (tm.tidy _ (rw (strcmp_eq_refl file, refused) e))
          | inr made ↦ rw made ((sk rc).settles _)
        ];
  }
