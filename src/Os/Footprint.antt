-- ===== src/Os/Footprint.antt =====
-- Which calls a piece of program makes, whatever the system answers: rules that follow the program
-- text, and what a property of histories keeps from them.
use ipcop_alpine.Prelude.{ℕ, Bool, true, false, List, [], ◌∷◌, All}
use ipcop_alpine.Cstring.{Bytes}
use ipcop_alpine.Os.{
  Call, History, Os, Out, done, exited, crashed, replaced, M, pure, ◌>>=◌, exit, crash, when,
  choose, for_each, call, act, contents, history_of,
}
use ipcop_alpine.Os.Trace.{Keeps}

-- Only calls in `S` are made: what they keep, the program keeps.
pub record Makes (S : Call → Type 0) {A : Type 0} (m : M A) : Type 1 where
  pub stays :
      (Q : History → Type 0)
      → ((c : Call) (h : History) → S c → Q h → Q (c ∷ h))
      → (h : History) → Q h
      → Q (history_of (m h))

module _ {S : Call → Type 0} where
  pub Makes-pure : {A : Type 0} (a : A) → Makes S (pure a)
  unfolding pure
  Makes-pure a = record { stays = λ Q step h q. q }

  pub Makes-exit : {A : Type 0} (n : ℕ) → Makes S (exit {A = A} n)
  unfolding exit
  Makes-exit n = record { stays = λ Q step h q. q }

  pub Makes-crash : {A : Type 0} → Makes S (crash {A = A})
  unfolding crash
  Makes-crash = record { stays = λ Q step h q. q }

  pub Makes-bind :
      {A B : Type 0} {m : M A} {f : A → M B}
      → Makes S m
      → ((a : A) → Makes S (f a))
      → Makes S (m >>= f)
  unfolding ◌>>=◌
  Makes-bind {A} {B} {m} {f} km kf = record {
    stays = λ Q step h q. go Q step (m h) (km.stays Q step h q);
  }
    where
      go :
          (Q : History → Type 0)
          → ((c : Call) (h : History) → S c → Q h → Q (c ∷ h))
          → (o : Out A) → Q (history_of o)
          → Q (
              history_of (
                let r : Out B = elim o [
                  | done a h' ↦ f a h'
                  | exited n h' ↦ exited n h'
                  | crashed h' ↦ crashed h'
                  | replaced h' ↦ replaced h'
                ] in
                r))
      go Q step (done a h') q = (kf a).stays Q step h' q
      go Q step (exited n h') q = q
      go Q step (crashed h') q = q
      go Q step (replaced h') q = q

  pub Makes-when : (b : Bool) {m : M (Unit {0})} → Makes S m → Makes S (when b m)
  unfolding when
  Makes-when true k = k
  Makes-when false k = Makes-pure tt

  pub Makes-choose :
      {A : Type 0} (b : Bool) {m k : M A} → Makes S m → Makes S k → Makes S (choose b m k)
  unfolding choose
  Makes-choose true km kk = km
  Makes-choose false km kk = kk

  pub Makes-for_each :
      {A : Type 0} {f : A → M (Unit {0})} (xs : List A)
      → ((a : A) → Makes S (f a))
      → Makes S (for_each xs f)
  unfolding for_each
  Makes-for_each [] k = Makes-pure tt
  Makes-for_each (x ∷ xs) k = Makes-bind (k x) (λ _. Makes-for_each xs k)

module _ {S : Call → Type 0} (os : Os) where
  pub Makes-call : (c : Call) → S c → Makes S (call os c)
  unfolding call
  Makes-call c s = record { stays = λ Q step h q. step c h s q }

  pub Makes-act : (c : Call) → S c → Makes S (act os c)
  unfolding act
  Makes-act c s = record { stays = λ Q step h q. step c h s q }

  pub Makes-contents : (file : Bytes) → Makes S (contents os file)
  unfolding contents
  Makes-contents file = record { stays = λ Q step h q. q }

pub ruleset makes = (
  Makes-pure, Makes-exit, Makes-crash, Makes-bind, Makes-when, Makes-choose, Makes-for_each,
  Makes-call, Makes-act, Makes-contents,
)

-- A wider set of calls.
pub Makes-mono :
    {S T : Call → Type 0} {A : Type 0} {m : M A} → ((c : Call) → S c → T c) → Makes S m → Makes T m
Makes-mono wider k = record { stays = λ Q step. k.stays Q (λ c h s. step c h (wider c s)) }

-- A property that every call in `S` has is kept by the whole history.
pub Keeps-of_Makes :
    {S : Call → Type 0} (P : Call → Type 0) {A : Type 0} {m : M A}
    → ((c : Call) → S c → P c)
    → Makes S m
    → Keeps P m
Keeps-of_Makes P ok k = record { kept = k.stays (All P) (λ c h s p. (ok c s, p)) }
