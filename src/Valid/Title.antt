-- ===== src/Valid/Title.antt =====
-- `get_title` of source/core/progs/helper.c: the name that /etc/issue gives, and what it leaves out.
use ipcop_alpine.Prelude.{
  ℕ, ◌≡◌, refl, ap, ◌∙◌, Bool, false, not, [], ◌∷◌, ◌++◌, Option, none, some, ◌==◌, if◌then◌else◌,
  All, All-append,
}
use ipcop_alpine.Cstring.{
  Bytes, codes, has_byte, before, is_newline, stripnl, is_nil, string_size, fgets_first,
}
use ipcop_alpine.Cstring.Laws.{has_byte-append, before-append_stop}
use ipcop_alpine.Os.{Os, M, pure, ◌>>=◌, ◌>>◌, choose, call, act, contents, fopen_read, fclose}

unfoldable pub is_paren : ℕ → Bool
is_paren c = c == b'('

-- `tty--; if (*tty == ' ') *tty = 0`. Where the parenthesis comes first the source looks at the byte
-- before the array, and may clear it; the title is empty either way.
unfoldable pub drop_space : Bytes → Bytes
drop_space [] = []
drop_space (c ∷ []) = if c == b' ' then [] else c ∷ []
drop_space (c ∷ d ∷ s) = c ∷ drop_space (d ∷ s)

unfoldable pub strip_tty : Bytes → Bytes
unfolding is_paren drop_space
strip_tty s = if has_byte b'(' s then drop_space (before is_paren s) else s

-- On the first line of /etc/issue.
unfoldable pub title_of : Option Bytes → Bytes
unfolding strip_tty
title_of none = []
title_of (some line) = strip_tty (stripnl line)

-- `title` is what an earlier call has left, empty before the first.
unfoldable pub get_title : Os → Bytes → M Bytes
unfolding title_of
get_title os title = choose (not (is_nil title)) (pure title) do
  opened ← call os (fopen_read (codes "/etc/issue"))
  choose (not (opened == 0)) (pure (codes "IPCop /etc/issue not found")) do
    text ← contents os (codes "/etc/issue")
    act os (fclose (codes "/etc/issue"))
    pure (title_of (fgets_first string_size text))

drop_space-append : (s : Bytes) → drop_space (s ++ b' ' ∷ []) ≡ s
unfolding drop_space
drop_space-append [] = refl
drop_space-append (c ∷ []) = refl
drop_space-append (c ∷ d ∷ s) = ap (◌∷◌ c) (drop_space-append (d ∷ s))

before_paren :
    (name tty : Bytes)
    → All (λ c. is_paren c ≡ false) name
    → before is_paren ((name ++ b' ' ∷ []) ++ b'(' ∷ tty) ≡ name ++ b' ' ∷ []
unfolding is_paren
before_paren name tty h =
    before-append_stop is_paren (name ++ b' ' ∷ []) b'(' tty
      (All-append _ name (b' ' ∷ []) h (refl, tt)) refl

strip_tty-name :
    (name tty : Bytes)
    → All (λ c. is_paren c ≡ false) name
    → strip_tty ((name ++ b' ' ∷ []) ++ b'(' ∷ tty) ≡ name
unfolding strip_tty
strip_tty-name name tty h =
    rw (has_byte-append b'(' (name ++ b' ' ∷ []) tty)
      (ap drop_space (before_paren name tty h) ∙ drop_space-append name)

-- A first line that is a name, then ` (`, the rest of a terminal's name and a newline, gives the
-- name, where neither has a newline in it and the name has no parenthesis.
pub title_of-name :
    (name tty rest : Bytes)
    → All (λ c. is_newline c ≡ false) name
    → All (λ c. is_newline c ≡ false) tty
    → All (λ c. is_paren c ≡ false) name
    → title_of (some (((name ++ b' ' ∷ []) ++ b'(' ∷ tty) ++ b'\n' ∷ rest)) ≡ name
unfolding title_of stripnl is_newline
title_of-name name tty rest hn ht hp =
    ap strip_tty (
      before-append_stop is_newline ((name ++ b' ' ∷ []) ++ b'(' ∷ tty) b'\n' rest
        (All-append _ (name ++ b' ' ∷ []) (b'(' ∷ tty) (All-append _ name (b' ' ∷ []) hn (refl, tt))
          (refl, ht))
        refl)
    ∙ strip_tty-name name tty hp
