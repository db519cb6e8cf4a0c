-- ===== src/Progs/Email/Settings.antt =====
-- The settings of an email that pass all tests.
use ipcop_alpine.Prelude.{
  ℕ, ◌≡◌, ◌≤◌, ◌-◌, refl, sym, Bool, true, false, [], ◌∷◌, length, length-take, arith, Bool-cases,
  inl, inr, subst,
}
use ipcop_alpine.Cstring.{Bytes, codes, string_size, strcmp_eq}
use ipcop_alpine.Kv.{Kv, find_kv_default}
use ipcop_alpine.Progs.Email.{
  Checked, refused, accepted, ◌>>=◌, require, setting, EmailSettings, email_settings, is_server,
  is_port, is_user, is_password, is_from, is_to,
}

-- Each value fits its buffer and passed its test. `tls` is not tested.
pub record IsAccepted (s : EmailSettings) : Type 0 where
  pub good_server : is_server s.server ≡ true
  pub good_port : is_port s.opt_port ≡ true
  pub good_user : is_user s.opt_user ≡ true
  pub good_password : is_password s.opt_password ≡ true
  pub good_from : is_from s.from ≡ true
  pub good_to : is_to s.to ≡ true
  pub server_fits : length s.server ≤ 255
  pub port_fits : length s.opt_port ≤ 255
  pub user_fits : length s.opt_user ≤ 255
  pub password_fits : length s.opt_password ≤ 255
  pub from_fits : length s.from ≤ 255
  pub to_fits : length s.to ≤ 255
  pub tls_fits : length s.tls ≤ 255

bind_accepted :
    {A B : Type 0} (m : Checked A) (f : A → Checked B) {b : B}
    → (m >>= f) ≡ accepted b
    → (a : A) × (m ≡ accepted a) × (f a ≡ accepted b)
bind_accepted (refused n) f e = cc
bind_accepted (accepted a) f e = (a, refl, e)

require_lem :
    (good : Bool) (code : ℕ) (v a : Bytes)
    → require good code v ≡ accepted a
    → (good ≡ true) × (v ≡ a)
unfolding require
require_lem true code v a e = (refl, cc)
require_lem false code v a e = cc

-- A value that is looked up fits, where the default does.
pub length-find_kv_default :
    (kv : Kv) (k value : Bytes) → length value ≤ 255 → length (find_kv_default kv k value).1 ≤ 255
unfolding find_kv_default
length-find_kv_default [] k value h = h
length-find_kv_default (item ∷ kv) k value h = elim (Bool-cases (strcmp_eq item.key k)) [
  | inl e ↦ rw e (omega (arith, length-take (string_size - 1) item.value))
  | inr e ↦ rw e (length-find_kv_default kv k value h)
]

setting_fits : (kv : Kv) (k a : Bytes) (code : ℕ) → setting kv k code ≡ accepted a → length a ≤ 255
unfolding setting
setting_fits kv k a code e =
    let (good, same) = require_lem _ code _ a e in
    subst (λ v. length v ≤ 255) same (length-find_kv_default kv k [] (omega arith))

-- A setting that is there and then tested.
tested :
    {A : Type 0} (kv : Kv) (k : Bytes) (code : ℕ) (test : Bytes → Bool) (f : Bytes → Checked A)
    {b : A}
    → (setting kv k code >>= λ v. require (test v) code v >>= f) ≡ accepted b
    → (v : Bytes) × (test v ≡ true) × (length v ≤ 255) × (f v ≡ accepted b)
tested kv k code test f {b} e =
    let (v, read, e1) = bind_accepted _ _ e in
    let (w, passed, e2) = bind_accepted _ _ e1 in
    let (good, same) = require_lem _ code v w passed in
    (v, good, setting_fits kv k v code read, subst (λ x. f x ≡ accepted b) (sym same) e2)

accepted_eq : {A : Type 0} {a b : A} → accepted a ≡ accepted b → a ≡ b
accepted_eq e = cc

-- Settings that pass all tests are made of the bytes that the tests allow, and fit their buffers.
pub email_settings-IsAccepted :
    (kv : Kv) (s : EmailSettings) → email_settings kv ≡ accepted s → IsAccepted s
unfolding email_settings codes
email_settings-IsAccepted kv s e =
    let (server, good_server, server_fits, e1) = tested kv _ 2 is_server _ e in
    let (port, good_port, port_fits, e2) = tested kv _ 3 is_port _ e1 in
    let (user, good_user, user_fits, e3) = tested kv _ 4 is_user _ e2 in
    let (password, good_password, password_fits, e4) = tested kv _ 5 is_password _ e3 in
    let (from, good_from, from_fits, e5) = tested kv _ 6 is_from _ e4 in
    let (to, good_to, to_fits, e6) = tested kv _ 7 is_to _ e5 in
    subst IsAccepted (accepted_eq e6) (record {
      good_server = good_server;
      good_port = good_port;
      good_user = good_user;
      good_password = good_password;
      good_from = good_from;
      good_to = good_to;
      server_fits = server_fits;
      port_fits = port_fits;
      user_fits = user_fits;
      password_fits = password_fits;
      from_fits = from_fits;
      to_fits = to_fits;
      tls_fits = length-find_kv_default kv (codes "EMAIL_USE_TLS") (codes "auto") (omega arith);
    })
