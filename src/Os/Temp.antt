-- ===== src/Os/Temp.antt =====
-- Temporary files: what `mkstemp` has made is removed again, however the program ends.
use ipcop_alpine.Prelude.{◌≡◌, refl, Bool, true, false, List, [], ◌∷◌, if◌then◌else◌, arith}
use ipcop_alpine.Cstring.{Bytes, strcmp_eq}
use ipcop_alpine.Cstring.Laws.{strcmp_eq_refl}
use ipcop_alpine.Os.{
  Call, History, Os, Out, done, exited, crashed, replaced, M, pure, ◌>>=◌, ◌>>◌, choose, when,
  for_each, call, act, contents, history_of, mkstemp, unlink,
}
use ipcop_alpine.Os.Footprint.{Makes}

-- Whether the file was asked for by `mkstemp`, and not removed since.
unfoldable pub is_left : Bytes → History → Bool
is_left file [] = false
is_left file (mkstemp f ∷ h) =
    let before = is_left file h in if strcmp_eq f file then true else before
is_left file (unlink f ∷ h) =
    let before = is_left file h in if strcmp_eq f file then false else before
is_left file (_ ∷ h) = is_left file h

-- Calls that do not make the file.
abbrev pub NoMake : Bytes → Call → Type 0
NoMake file (mkstemp f) = strcmp_eq f file ≡ false
NoMake file _ = Unit

-- Where the program has ended, the file is not left.
abbrev pub Ended : Bytes → {A : Type 0} → Out A → Type 0
Ended file (done a h) = Unit
Ended file (exited n h) = is_left file h ≡ false
Ended file (crashed h) = is_left file h ≡ false
Ended file (replaced h) = is_left file h ≡ false

module _ (file : Bytes) where
  -- The file is not left behind `m`, however it was entered.
  pub record Settles {A : Type 0} (m : M A) : Type 0 where
    pub settles : (h : History) → is_left file (history_of (m h)) ≡ false

  -- It is not left where `m` ends the program.
  pub record Closes {A : Type 0} (m : M A) : Type 0 where
    pub closes : (h : History) → Ended file (m h)

  -- It is not left where `m` ends the program, if it was not there before.
  pub record Opens {A : Type 0} (m : M A) : Type 0 where
    pub opens : (h : History) → is_left file h ≡ false → Ended file (m h)

  -- It is not left behind `m`, if it was not there before.
  pub record Tidy {A : Type 0} (m : M A) : Type 0 where
    pub tidy : (h : History) → is_left file h ≡ false → is_left file (history_of (m h)) ≡ false

module _ (file : Bytes) where
  Ended-of_left : {A : Type 0} (o : Out A) → is_left file (history_of o) ≡ false → Ended file o
  Ended-of_left (done a h) e = tt
  Ended-of_left (exited n h) e = e
  Ended-of_left (crashed h) e = e
  Ended-of_left (replaced h) e = e

  not_left_kept :
      (c : Call) (h : History)
      → NoMake file c
      → is_left file h ≡ false
      → is_left file (c ∷ h) ≡ false
  unfolding is_left
  not_left_kept (mkstemp f) h s e = rw s e
  not_left_kept (unlink f) h s e = ground (arith, e)
  not_left_kept _ h s e = e

  -- The two parts of a sequence: where the first ends the program, and the history behind both.
  bind_left :
      {A B : Type 0} (f : A → M B) (o : Out A)
      → Ended file o
      → ((a : A) (h : History) → o ≡ done a h → is_left file (history_of (f a h)) ≡ false)
      → is_left file (
          history_of (
            let r : Out B = elim o [
              | done a h' ↦ f a h'
              | exited n h' ↦ exited n h'
              | crashed h' ↦ crashed h'
              | replaced h' ↦ replaced h'
            ] in
            r))
        ≡ false
  bind_left f (done a h) e k = k a h refl
  bind_left f (exited n h) e k = e
  bind_left f (crashed h) e k = e
  bind_left f (replaced h) e k = e

  bind-Ended :
      {A B : Type 0} (f : A → M B) (o : Out A)
      → Ended file o
      → ((a : A) (h : History) → o ≡ done a h → Ended file (f a h))
      → Ended file (
          let r : Out B = elim o [
            | done a h' ↦ f a h'
            | exited n h' ↦ exited n h'
            | crashed h' ↦ crashed h'
            | replaced h' ↦ replaced h'
          ] in
          r)
  bind-Ended f (done a h) e k = k a h refl
  bind-Ended f (exited n h) e k = e
  bind-Ended f (crashed h) e k = e
  bind-Ended f (replaced h) e k = e

module _ {file : Bytes} where
  pub Closes-of_Settles : {A : Type 0} {m : M A} → Settles file m → Closes file m
  Closes-of_Settles {A} {m} k = record { closes = λ h. Ended-of_left file (m h) (k.settles h) }

  pub Closes-pure : {A : Type 0} (a : A) → Closes file (pure a)
  unfolding pure
  Closes-pure a = record { closes = λ h. tt }

  pub Closes-call : (os : Os) (c : Call) → Closes file (call os c)
  unfolding call
  Closes-call os c = record { closes = λ h. tt }

  pub Closes-act : (os : Os) (c : Call) → Closes file (act os c)
  unfolding act
  Closes-act os c = record { closes = λ h. tt }

  pub Closes-contents : (os : Os) (name : Bytes) → Closes file (contents os name)
  unfolding contents
  Closes-contents os name = record { closes = λ h. tt }

  pub Closes-bind :
      {A B : Type 0} {m : M A} {f : A → M B}
      → Closes file m
      → ((a : A) → Closes file (f a))
      → Closes file (m >>= f)
  unfolding ◌>>=◌
  Closes-bind {A} {B} {m} {f} km kf = record {
    closes = λ h. bind-Ended file f (m h) (km.closes h) (λ a h' e. (kf a).closes h');
  }

  pub Closes-when : (b : Bool) {m : M (Unit {0})} → Closes file m → Closes file (when b m)
  unfolding when
  Closes-when true k = k
  Closes-when false k = Closes-pure tt

  pub Closes-choose :
      {A : Type 0} (b : Bool) {m k : M A}
      → Closes file m
      → Closes file k
      → Closes file (choose b m k)
  unfolding choose
  Closes-choose true km kk = km
  Closes-choose false km kk = kk

  pub Closes-for_each :
      {A : Type 0} {f : A → M (Unit {0})} (xs : List A)
      → ((a : A) → Closes file (f a))
      → Closes file (for_each xs f)
  unfolding for_each
  Closes-for_each [] k = Closes-pure tt
  Closes-for_each (x ∷ xs) k = Closes-bind (k x) (λ _. Closes-for_each xs k)

  pub Settles-bind :
      {A B : Type 0} {m : M A} {f : A → M B}
      → Closes file m
      → ((a : A) → Settles file (f a))
      → Settles file (m >>= f)
  unfolding ◌>>=◌
  Settles-bind {A} {B} {m} {f} km kf = record {
    settles = λ h. bind_left file f (m h) (km.closes h) (λ a h' e. (kf a).settles h');
  }

  -- The file is removed, and not made again.
  pub Settles-unlink :
      (os : Os) {A : Type 0} {m : M A}
      → Makes (NoMake file) m
      → Settles file (act os (unlink file) >> m)
  unfolding act ◌>>=◌ is_left
  Settles-unlink os k = record {
    settles = λ h.
        k.stays (λ h. is_left file h ≡ false) (not_left_kept file) (unlink file ∷ h)
          (rw (strcmp_eq_refl file) refl);
  }

  pub Opens-of_Closes : {A : Type 0} {m : M A} → Closes file m → Opens file m
  Opens-of_Closes k = record { opens = λ h e. k.closes h }

  pub Opens-bind :
      {A B : Type 0} {m : M A} {f : A → M B}
      → Makes (NoMake file) m
      → ((a : A) → Opens file (f a))
      → Opens file (m >>= f)
  unfolding ◌>>=◌
  Opens-bind {A} {B} {m} {f} km kf = record {
    opens = λ h e.
        let kept = km.stays (λ h. is_left file h ≡ false) (not_left_kept file) h e in
        bind-Ended file f (m h) (Ended-of_left file (m h) kept)
          (λ a h' d. (kf a).opens h' (let k = rw d at kept in k));
  }

  pub Tidy-bind :
      {A B : Type 0} {m : M A} {f : A → M B}
      → Makes (NoMake file) m
      → ((a : A) → Tidy file (f a))
      → Tidy file (m >>= f)
  unfolding ◌>>=◌
  Tidy-bind {A} {B} {m} {f} km kf = record {
    tidy = λ h e.
        let kept = km.stays (λ h. is_left file h ≡ false) (not_left_kept file) h e in
        bind_left file f (m h) (Ended-of_left file (m h) kept)
          (λ a h' d. (kf a).tidy h' (let k = rw d at kept in k));
  }

  -- The part that makes the file, and the rest.
  pub Tidy-open :
      {A B : Type 0} {m : M A} {f : A → M B}
      → Opens file m
      → ((a : A) → Settles file (f a))
      → Tidy file (m >>= f)
  unfolding ◌>>=◌
  Tidy-open {A} {B} {m} {f} km kf = record {
    tidy = λ h e. bind_left file f (m h) (km.opens h e) (λ a h' d. (kf a).settles h');
  }

pub ruleset closes_rules = (
  Closes-of_Settles, Closes-pure, Closes-call, Closes-act, Closes-contents, Closes-bind,
  Closes-when, Closes-choose, Closes-for_each,
)
