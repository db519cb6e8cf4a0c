-- ===== src/Progs/Hosts/Lines.antt =====
-- What rebuildhosts lets into /etc/hosts, and the line on which it reads through NULL.
use ipcop_alpine.Prelude.{
  ℕ, ◌≡◌, ◌≢◌, ◌≤◌, ◌↔◌, refl, true, false, List, [], ◌∷◌, ◌++◌, Option, none, some, ◌==◌,
  if◌then◌else◌, arith, Bool-cases, inl, inr, length,
}
use ipcop_alpine.Cstring.{Bytes, is_nil, strsep_fields, strtok_tokens, non_empty}
use ipcop_alpine.Valid.{valid_ip}
use ipcop_alpine.Progs.Hosts.{
  HostLine, passed_over, fault, printed, chop_last, host_text, valid_host, check_host, token_line,
  host_line, begins_with_comma,
}

-- A line that is printed is made of an address and a host name that passed their tests.
pub record IsHost (text : Bytes) : Type 0 where
  pub ip : Bytes
  pub host : Bytes
  pub domain : Option Bytes
  pub ip_valid : valid_ip ip ≡ true
  pub host_valid : valid_host host ≡ true
  pub spells : text ≡ host_text ip host domain

check_host-IsHost :
    (ip host : Bytes) (domain : Option Bytes) {text : Bytes}
    → check_host ip host domain ≡ printed text
    → IsHost text
unfolding check_host
check_host-IsHost ip host domain e = record {
  ip = ip;
  host = host;
  domain = domain;
  ip_valid = ground arith;
  host_valid = ground arith;
  spells = ground arith;
}

token_line-IsHost :
    (tokens : List Bytes) {text : Bytes} → token_line tokens ≡ printed text → IsHost text
unfolding token_line
token_line-IsHost [] e = cc
token_line-IsHost (a ∷ []) e = cc
token_line-IsHost (a ∷ ip ∷ []) e = cc
token_line-IsHost (a ∷ ip ∷ host ∷ []) e = check_host-IsHost ip host none (ground arith)
token_line-IsHost (a ∷ ip ∷ host ∷ domain ∷ more) e =
    check_host-IsHost ip host (some domain) (ground arith)

-- Every line that comes out of the list names an address that passed `VALID_IP` and a host name of
-- letters, digits and dashes.
pub host_line-IsHost :
    (buffer : Bytes) {text : Bytes} → host_line buffer ≡ printed text → IsHost text
unfolding host_line
host_line-IsHost buffer e = token_line-IsHost (strtok_tokens (chop_last buffer)) (ground arith)

chop_last-nil : (s : Bytes) → (length s ≤ 1) ↔ (chop_last s ≡ [])
unfolding chop_last
chop_last-nil [] = (λ h. refl, λ e. omega arith)
chop_last-nil (c ∷ []) = (λ h. refl, λ e. omega arith)
chop_last-nil (c ∷ d ∷ s) = (λ h. absurd (omega arith), λ e. cc)

-- A field that has begun is a token.
strsep_begun :
    (got s : Bytes) → is_nil got ≡ false → is_nil (non_empty (strsep_fields got s)) ≡ false
unfolding strsep_fields non_empty
strsep_begun got [] h = rw h
strsep_begun got (c ∷ s) h = elim (Bool-cases (c == b',')) [
  | inl e ↦ rw e (rw h)
  | inr e ↦ rw e (strsep_begun (got ++ c ∷ []) s (concat_begun got c))
]
  where
    concat_begun : (got : Bytes) (c : ℕ) → is_nil (got ++ c ∷ []) ≡ false
    concat_begun [] c = refl
    concat_begun (d ∷ got) c = refl

strtok_begun : (c : ℕ) (s : Bytes) → (c == b',') ≡ false → is_nil (strtok_tokens (c ∷ s)) ≡ false
unfolding strtok_tokens strsep_fields
strtok_begun c s h = rw h (strsep_begun (c ∷ []) s refl)

token_line_begun : (tokens : List Bytes) → is_nil tokens ≡ false → token_line tokens ≢ fault
unfolding token_line check_host
token_line_begun [] h e = cc
token_line_begun (a ∷ []) h e = cc
token_line_begun (a ∷ ip ∷ []) h e = cc
token_line_begun (a ∷ ip ∷ host ∷ []) h e = ground arith
token_line_begun (a ∷ ip ∷ host ∷ domain ∷ more) h e = ground arith

text_line : Bytes → HostLine
text_line text = if begins_with_comma text then passed_over else token_line (strtok_tokens text)

text_line-fault : (text : Bytes) → (text_line text ≡ fault) ↔ (text ≡ [])
unfolding text_line begins_with_comma
text_line-fault [] = (λ e. refl, λ e. unfold token_line strtok_tokens in refl)
text_line-fault (c ∷ s) = (
  λ e. elim (Bool-cases (c == b',')) [
    | inl comma ↦ cc (rw comma at e)
    | inr begun ↦
        absurd (token_line_begun (strtok_tokens (c ∷ s)) (strtok_begun c s begun) (rw begun at e))
  ],
  λ e. cc,
)

-- The lines on which the program reads through NULL are those of at most one byte, newline
-- included: in particular every empty line.
pub host_line-fault : (buffer : Bytes) → (host_line buffer ≡ fault) ↔ (length buffer ≤ 1)
unfolding host_line text_line
host_line-fault buffer = (
  λ e. (chop_last-nil buffer).1 ((text_line-fault (chop_last buffer)).0 e),
  λ h. (text_line-fault (chop_last buffer)).1 ((chop_last-nil buffer).0 h),
)
