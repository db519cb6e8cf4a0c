-- ===== src/Os/Yields.antt =====
-- What holds of the value that a piece of program ends with, whatever the system answers.
use ipcop_alpine.Prelude.{Bool, true, false}
use ipcop_alpine.Os.{History, Out, done, exited, crashed, replaced, M, pure, ◌>>=◌, crash, choose}

-- A value, where there is one, meets `P`.
abbrev pub Ends : {A : Type 0} → (A → Type 0) → Out A → Type 0
Ends P (done a h) = P a
Ends P (exited n h) = Unit
Ends P (crashed h) = Unit
Ends P (replaced h) = Unit

pub record Yields {A : Type 0} (P : A → Type 0) (m : M A) : Type 0 where
  pub yields : (h : History) → Ends P (m h)

pub Yields-pure : {A : Type 0} {P : A → Type 0} (a : A) → P a → Yields P (pure a)
unfolding pure
Yields-pure a p = record { yields = λ h. p }

pub Yields-crash : {A : Type 0} {P : A → Type 0} → Yields P crash
unfolding crash
Yields-crash = record { yields = λ h. tt }

pub Yields-choose :
    {A : Type 0} {P : A → Type 0} (b : Bool) {m k : M A}
    → Yields P m
    → Yields P k
    → Yields P (choose b m k)
unfolding choose
Yields-choose true ym yk = ym
Yields-choose false ym yk = yk

pub Yields-bind :
    {A B : Type 0} {P : A → Type 0} {Q : B → Type 0} {m : M A} {f : A → M B}
    → Yields P m
    → ((a : A) → P a → Yields Q (f a))
    → Yields Q (m >>= f)
unfolding ◌>>=◌
Yields-bind {A} {B} {P} {Q} {m} {f} ym yf = record { yields = λ h. go (m h) (ym.yields h) }
  where
    go :
        (o : Out A)
        → Ends P o
        → Ends Q (
            let r : Out B = elim o [
              | done a h' ↦ f a h'
              | exited n h' ↦ exited n h'
              | crashed h' ↦ crashed h'
              | replaced h' ↦ replaced h'
            ] in
            r)
    go (done a h) p = (yf a p).yields h
    go (exited n h) p = tt
    go (crashed h) p = tt
    go (replaced h) p = tt

-- Behind a part of whose value nothing is asked.
pub Yields-after :
    {A B : Type 0} {Q : B → Type 0} (m : M A) {f : A → M B}
    → ((a : A) → Yields Q (f a))
    → Yields Q (m >>= f)
Yields-after m yf = Yields-bind (any m) (λ a _. yf a)
  where
    any : {A : Type 0} (m : M A) → Yields (λ a. Unit) m
    any m = record { yields = λ h. ended (m h) }
      where
        ended : {A : Type 0} (o : Out A) → Ends (λ a. Unit) o
        ended (done a h) = tt
        ended (exited n h) = tt
        ended (crashed h) = tt
        ended (replaced h) = tt
