-- ===== src/Os/Trace.antt =====
-- A property of calls that a program never breaks, whatever the system answers: rules that follow
-- the program text.
use ipcop_alpine.Prelude.{ℕ, Bool, true, false, List, [], ◌∷◌, All, ◌≡◌, refl, not}
use ipcop_alpine.Cstring.{Bytes}
use ipcop_alpine.Os.{
  Call, History, Os, Out, done, exited, crashed, replaced, M, pure, ◌>>=◌, exit, crash, when,
  choose, for_each, call, act, contents, history_of,
}

-- If the history had the property at the start, it has it at the end.
pub record Keeps (P : Call → Type 0) {A : Type 0} (m : M A) : Type 0 where
  pub kept : (h : History) → All P h → All P (history_of (m h))

module _ {P : Call → Type 0} where
  pub Keeps-pure : {A : Type 0} (a : A) → Keeps P (pure a)
  unfolding pure
  Keeps-pure a = record { kept = λ h p. p }

  pub Keeps-exit : {A : Type 0} (n : ℕ) → Keeps P (exit {A = A} n)
  unfolding exit
  Keeps-exit n = record { kept = λ h p. p }

  pub Keeps-crash : {A : Type 0} → Keeps P (crash {A = A})
  unfolding crash
  Keeps-crash = record { kept = λ h p. p }

  pub Keeps-bind :
      {A B : Type 0} {m : M A} {f : A → M B}
      → Keeps P m
      → ((a : A) → Keeps P (f a))
      → Keeps P (m >>= f)
  unfolding ◌>>=◌
  Keeps-bind {A} {B} {m} {f} km kf = record { kept = λ h p. go (m h) (km.kept h p) }
    where
      go :
          (o : Out A)
          → All P (history_of o)
          → All P (
              history_of (
                let r : Out B = elim o [
                  | done a h' ↦ f a h'
                  | exited n h' ↦ exited n h'
                  | crashed h' ↦ crashed h'
                  | replaced h' ↦ replaced h'
                ] in
                r))
      go (done a h') p = (kf a).kept h' p
      go (exited n h') p = p
      go (crashed h') p = p
      go (replaced h') p = p

  -- What is known of the value that the first part ends with.
  pub Keeps-bind_value :
      {A B : Type 0} (Q : A → Type 0) {m : M A} {f : A → M B}
      → Keeps P m
      → ((h h' : History) (a : A) → m h ≡ done a h' → Q a)
      → ((a : A) → Q a → Keeps P (f a))
      → Keeps P (m >>= f)
  unfolding ◌>>=◌
  Keeps-bind_value {A} {B} Q {m} {f} km value kf = record {
    kept = λ h p. go (m h) (value h) (km.kept h p);
  }
    where
      go :
          (o : Out A)
          → ((h' : History) (a : A) → o ≡ done a h' → Q a)
          → All P (history_of o)
          → All P (
              history_of (
                let r : Out B = elim o [
                  | done a h' ↦ f a h'
                  | exited n h' ↦ exited n h'
                  | crashed h' ↦ crashed h'
                  | replaced h' ↦ replaced h'
                ] in
                r))
      go (done a h') v p = (kf a (v h' a refl)).kept h' p
      go (exited n h') v p = p
      go (crashed h') v p = p
      go (replaced h') v p = p

  pub Keeps-when : (b : Bool) {m : M (Unit {0})} → Keeps P m → Keeps P (when b m)
  unfolding when
  Keeps-when true k = k
  Keeps-when false k = Keeps-pure tt

  pub Keeps-choose :
      {A : Type 0} (b : Bool) {m k : M A} → Keeps P m → Keeps P k → Keeps P (choose b m k)
  unfolding choose
  Keeps-choose true km kk = km
  Keeps-choose false km kk = kk

  -- Where a test decides, each branch has its outcome.
  pub Keeps-choose-not :
      {A : Type 0} (b : Bool) {m k : M A}
      → (b ≡ false → Keeps P m)
      → (b ≡ true → Keeps P k)
      → Keeps P (choose (not b) m k)
  unfolding choose
  Keeps-choose-not true km kk = kk refl
  Keeps-choose-not false km kk = km refl

  pub Keeps-choose-false :
      {A : Type 0} (b : Bool) {m k : M A}
      → Keeps P m
      → (b ≡ false → Keeps P k)
      → Keeps P (choose b m k)
  unfolding choose
  Keeps-choose-false true km kk = km
  Keeps-choose-false false km kk = kk refl

  pub Keeps-when-true : (b : Bool) {m : M (Unit {0})} → (b ≡ true → Keeps P m) → Keeps P (when b m)
  unfolding when
  Keeps-when-true true k = k refl
  Keeps-when-true false k = Keeps-pure tt

  pub Keeps-for_each :
      {A : Type 0} {f : A → M (Unit {0})} (xs : List A)
      → ((a : A) → Keeps P (f a))
      → Keeps P (for_each xs f)
  unfolding for_each
  Keeps-for_each [] k = Keeps-pure tt
  Keeps-for_each (x ∷ xs) k = Keeps-bind (k x) (λ _. Keeps-for_each xs k)

module _ {P : Call → Type 0} (os : Os) where
  pub Keeps-call : (c : Call) → P c → Keeps P (call os c)
  unfolding call
  Keeps-call c q = record { kept = λ h p. (q, p) }

  pub Keeps-act : (c : Call) → P c → Keeps P (act os c)
  unfolding act
  Keeps-act c q = record { kept = λ h p. (q, p) }

  pub Keeps-contents : (file : Bytes) → Keeps P (contents os file)
  unfolding contents
  Keeps-contents file = record { kept = λ h p. p }

pub ruleset keeps = (
  Keeps-pure, Keeps-exit, Keeps-crash, Keeps-bind, Keeps-when, Keeps-choose, Keeps-for_each,
  Keeps-call, Keeps-act, Keeps-contents,
)
