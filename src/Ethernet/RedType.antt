-- ===== src/Ethernet/RedType.antt =====
-- Behind a successful `read_ethernet_settings` the type of the RED connection is set.
use ipcop_alpine.Prelude.{
  ℕ, ◌≡◌, ◌≢◌, Bool, true, false, Option, none, some, inl, inr, Option-cases, subst,
}
use ipcop_alpine.Cstring.{Bytes, codes}
use ipcop_alpine.Kv.{Kv, find_kv}
use ipcop_alpine.Os.{Os, History, done, M, pure, ◌>>=◌, choose, exit}
use ipcop_alpine.Setuid.Initial.{bind_done}
use ipcop_alpine.Ethernet.{
  Ethernet, red, read_ethernet_key, is_red, key_of, read_ethernet_settings, finish_red,
  finish_settings, give_up,
}

abbrev HasRedType : ℕ × Ethernet → Type 0
HasRedType r = (r.1).red_type ≢ none

record Yields {A : Type 0} (Q : A → Type 0) (m : M A) : Type 0 where
  yields : (h h' : History) (a : A) → m h ≡ done a h' → Q a

value_eq : {A : Type 0} {a b : A} {h h' : History} → done a h ≡ done b h' → a ≡ b
value_eq e = cc

module _ {A : Type 0} {Q : A → Type 0} where
  Yields-bind :
      {B : Type 0} (m : M B) {f : B → M A} → ((b : B) → Yields Q (f b)) → Yields Q (m >>= f)
  Yields-bind m {f} k = record {
    yields = λ h h' a e. let (b, h1, e1) = bind_done m f h h' e in (k b).yields h1 h' a e1;
  }

  Yields-choose : (b : Bool) {m k : M A} → Yields Q m → Yields Q k → Yields Q (choose b m k)
  unfolding choose
  Yields-choose true ym yk = ym
  Yields-choose false ym yk = yk

  Yields-exit : (n : ℕ) → Yields Q (exit {A = A} n)
  unfolding exit
  Yields-exit n = record { yields = λ h h' a e. cc }

  Yields-pure : (a : A) → Q a → Yields Q (pure a)
  unfolding pure
  Yields-pure a q = record { yields = λ h h' b e. subst Q (value_eq e) q }

give_up-Yields : (os : Os) (e : Ethernet) → Yields HasRedType (give_up os true e)
unfolding give_up choose
give_up-Yields os e = Yields-exit 1

red_key_set : (kv : Kv) → read_ethernet_key kv red (codes "TYPE") ≢ none
unfolding read_ethernet_key is_red
red_key_set kv = elim (Option-cases (find_kv kv (key_of red (codes "TYPE")))) [
  | inl missing ↦ rw (missing, read_ethernet_key) (λ e. cc)
  | inr (v, found) ↦ rw (found, read_ethernet_key) (λ e. cc)
]

finish_settings-Yields :
    (os : Os) (kv : Kv) (e : Ethernet) → Yields HasRedType (finish_settings os true kv e)
unfolding finish_settings
finish_settings-Yields os kv e =
    Yields-choose _ (give_up-Yields os _) (Yields-pure _ (red_key_set kv))

finish_red-Yields :
    (os : Os) (kv : Kv) (e : Ethernet) (o : Option Bytes)
    → Yields HasRedType (finish_red os true kv e o)
unfolding finish_red
finish_red-Yields os kv e none = finish_settings-Yields os kv _
finish_red-Yields os kv e (some iface) =
    Yields-choose _ (give_up-Yields os _) (finish_settings-Yields os kv _)

read-Yields : (os : Os) → Yields HasRedType (read_ethernet_settings os true)
unfolding read_ethernet_settings
read-Yields os = Yields-bind _ λ r. Yields-choose _ (give_up-Yields os _) (
    Yields-bind _
      λ active. Yields-bind _ λ local. Yields-bind _ λ iface. finish_red-Yields os _ _ iface)

-- What a successful run gives has a type of the RED connection.
pub read_ethernet_settings-red_type :
    (os : Os) (h h' : History) (r : ℕ × Ethernet)
    → read_ethernet_settings os true h ≡ done r h'
    → (r.1).red_type ≢ none
read_ethernet_settings-red_type os h h' r e = (read-Yields os).yields h h' r e
