-- ===== src/Os/Exits.antt =====
-- Programs that always end by `exit`: no fault, and no way to fall off the end.
use ipcop_alpine.Prelude.{◌≡◌, refl, ℕ, Bool, true, false, List, [], ◌∷◌}
use ipcop_alpine.Cstring.{Bytes}
use ipcop_alpine.Os.{
  Call, History, Os, Out, done, exited, crashed, replaced, M, pure, ◌>>=◌, when, choose, for_each,
  exit, call, act, contents,
}

abbrev pub NoFault : {A : Type 0} → Out A → Type 0
NoFault (done a h) = Unit
NoFault (exited n h) = Unit
NoFault (crashed h) = ⊥
NoFault (replaced h) = ⊥

abbrev pub ByExit : {A : Type 0} → Out A → Type 0
ByExit (exited n h) = Unit
ByExit _ = ⊥

-- It ends with a value or by `exit`.
pub record Behaves {A : Type 0} (m : M A) : Type 0 where
  pub no_fault : (h : History) → NoFault (m h)

pub record Exits {A : Type 0} (m : M A) : Type 0 where
  pub by_exit : (h : History) → ByExit (m h)

pub Behaves-pure : {A : Type 0} (a : A) → Behaves (pure a)
unfolding pure
Behaves-pure a = record { no_fault = λ h. tt }

pub Behaves-exit : {A : Type 0} (n : ℕ) → Behaves (exit {A = A} n)
unfolding exit
Behaves-exit n = record { no_fault = λ h. tt }

pub Behaves-bind :
    {A B : Type 0} {m : M A} {f : A → M B}
    → Behaves m
    → ((a : A) → Behaves (f a))
    → Behaves (m >>= f)
unfolding ◌>>=◌
Behaves-bind {A} {B} {m} {f} bm bf = record { no_fault = λ h. go (m h) (bm.no_fault h) }
  where
    go :
        (o : Out A)
        → NoFault o
        → NoFault (
            let r : Out B = elim o [
              | done a h' ↦ f a h'
              | exited n h' ↦ exited n h'
              | crashed h' ↦ crashed h'
              | replaced h' ↦ replaced h'
            ] in
            r)
    go (done a h') w = (bf a).no_fault h'
    go (exited n h') w = tt
    go (crashed h') w = w
    go (replaced h') w = w

pub Behaves-when : (b : Bool) {m : M (Unit {0})} → Behaves m → Behaves (when b m)
unfolding when
Behaves-when true k = k
Behaves-when false k = Behaves-pure tt

pub Behaves-choose :
    {A : Type 0} (b : Bool) {m k : M A} → Behaves m → Behaves k → Behaves (choose b m k)
unfolding choose
Behaves-choose true bm bk = bm
Behaves-choose false bm bk = bk

pub Behaves-for_each :
    {A : Type 0} {f : A → M (Unit {0})} (xs : List A)
    → ((a : A) → Behaves (f a))
    → Behaves (for_each xs f)
unfolding for_each
Behaves-for_each [] k = Behaves-pure tt
Behaves-for_each (x ∷ xs) k = Behaves-bind (k x) (λ _. Behaves-for_each xs k)

pub Behaves-call : (os : Os) (c : Call) → Behaves (call os c)
unfolding call
Behaves-call os c = record { no_fault = λ h. tt }

pub Behaves-act : (os : Os) (c : Call) → Behaves (act os c)
unfolding act
Behaves-act os c = record { no_fault = λ h. tt }

pub Behaves-contents : (os : Os) (file : Bytes) → Behaves (contents os file)
unfolding contents
Behaves-contents os file = record { no_fault = λ h. tt }

pub Exits-exit : {A : Type 0} (n : ℕ) → Exits (exit {A = A} n)
unfolding exit
Exits-exit n = record { by_exit = λ h. tt }

pub Exits-bind :
    {A B : Type 0} {m : M A} {f : A → M B} → Behaves m → ((a : A) → Exits (f a)) → Exits (m >>= f)
unfolding ◌>>=◌
Exits-bind {A} {B} {m} {f} bm ef = record { by_exit = λ h. go (m h) (bm.no_fault h) }
  where
    go :
        (o : Out A)
        → NoFault o
        → ByExit (
            let r : Out B = elim o [
              | done a h' ↦ f a h'
              | exited n h' ↦ exited n h'
              | crashed h' ↦ crashed h'
              | replaced h' ↦ replaced h'
            ] in
            r)
    go (done a h') w = (ef a).by_exit h'
    go (exited n h') w = tt
    go (crashed h') w = w
    go (replaced h') w = w

-- A first part that exits ends the program.
pub Exits-first : {A B : Type 0} {m : M A} (f : A → M B) → Exits m → Exits (m >>= f)
unfolding ◌>>=◌
Exits-first {A} {B} {m} f em = record { by_exit = λ h. go (m h) (em.by_exit h) }
  where
    go :
        (o : Out A)
        → ByExit o
        → ByExit (
            let r : Out B = elim o [
              | done a h' ↦ f a h'
              | exited n h' ↦ exited n h'
              | crashed h' ↦ crashed h'
              | replaced h' ↦ replaced h'
            ] in
            r)
    go (done a h') w = elim w [ ]
    go (exited n h') w = tt
    go (crashed h') w = w
    go (replaced h') w = w

-- What is known of the value that the first part ends with.
pub Exits-bind_value :
    {A B : Type 0} (Q : A → Type 0) {m : M A} {f : A → M B}
    → Behaves m
    → ((h h' : History) (a : A) → m h ≡ done a h' → Q a)
    → ((a : A) → Q a → Exits (f a))
    → Exits (m >>= f)
unfolding ◌>>=◌
Exits-bind_value {A} {B} Q {m} {f} bm value ef = record {
  by_exit = λ h. go (m h) (value h) (bm.no_fault h);
}
  where
    go :
        (o : Out A)
        → ((h' : History) (a : A) → o ≡ done a h' → Q a)
        → NoFault o
        → ByExit (
            let r : Out B = elim o [
              | done a h' ↦ f a h'
              | exited n h' ↦ exited n h'
              | crashed h' ↦ crashed h'
              | replaced h' ↦ replaced h'
            ] in
            r)
    go (done a h') v w = (ef a (v h' a refl)).by_exit h'
    go (exited n h') v w = tt
    go (crashed h') v w = w
    go (replaced h') v w = w

pub Exits-choose : {A : Type 0} (b : Bool) {m k : M A} → Exits m → Exits k → Exits (choose b m k)
unfolding choose
Exits-choose true em ek = em
Exits-choose false em ek = ek

pub Exits-when : (b : Bool) {m : M (Unit {0})} → b ≡ true → Exits m → Exits (when b m)
unfolding when
Exits-when true e em = em
Exits-when false e em = cc

-- Where a test decides, each branch has its outcome.
pub Exits-cases :
    {A : Type 0} (b : Bool) {m k : M A}
    → (b ≡ true → Exits m)
    → (b ≡ false → Exits k)
    → Exits (choose b m k)
unfolding choose
Exits-cases true em ek = em refl
Exits-cases false em ek = ek refl

pub ruleset behaves = (
  Behaves-pure, Behaves-exit, Behaves-bind, Behaves-when, Behaves-choose, Behaves-for_each,
  Behaves-call, Behaves-act, Behaves-contents,
)

pub ruleset exits = (behaves, Exits-exit, Exits-bind, Exits-choose)
