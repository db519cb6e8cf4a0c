-- ===== src/Os/Returns.antt =====
-- Parts of a program that always end with a value, whatever the system answers.
use ipcop_alpine.Prelude.{Bool, true, false, ◌≡◌, refl, ◌∷◌}
use ipcop_alpine.Cstring.{Bytes}
use ipcop_alpine.Os.{Call, History, Os, done, M, pure, ◌>>=◌, choose, call, act, contents}

pub record Returns {A : Type 0} (m : M A) : Type 0 where
  pub value : (h : History) → (a : A) × (h' : History) × (m h ≡ done a h')

-- Behind a part that has ended with a value.
pub after_value :
    {A B : Type 0} (m : M A) (f : A → M B) (h h' : History) (a : A)
    → m h ≡ done a h'
    → (m >>= f) h ≡ f a h'
unfolding ◌>>=◌
after_value m f h h' a e = rw (e, ◌>>=◌)

pub Returns-pure : {A : Type 0} (a : A) → Returns (pure a)
unfolding pure
Returns-pure a = record { value = λ h. (a, h, refl) }

pub Returns-bind :
    {A B : Type 0} {m : M A} {f : A → M B}
    → Returns m
    → ((a : A) → Returns (f a))
    → Returns (m >>= f)
unfolding ◌>>=◌
Returns-bind {A} {B} {m} {f} rm rf = record {
  value = λ h.
      let (a, h', e) = rm.value h in
      let (b, h'', e') = (rf a).value h' in (b, h'', rw (e, ◌>>=◌) e');
}

pub Returns-choose :
    {A : Type 0} (b : Bool) {m k : M A} → Returns m → Returns k → Returns (choose b m k)
unfolding choose
Returns-choose true rm rk = rm
Returns-choose false rm rk = rk

pub Returns-call : (os : Os) (c : Call) → Returns (call os c)
unfolding call
Returns-call os c = record { value = λ h. (os.status h c, c ∷ h, refl) }

pub Returns-act : (os : Os) (c : Call) → Returns (act os c)
unfolding act
Returns-act os c = record { value = λ h. (tt, c ∷ h, refl) }

pub Returns-contents : (os : Os) (file : Bytes) → Returns (contents os file)
unfolding contents
Returns-contents os file = record { value = λ h. (os.text h file, h, refl) }

pub ruleset returns =
    (Returns-pure, Returns-bind, Returns-choose, Returns-call, Returns-act, Returns-contents)
