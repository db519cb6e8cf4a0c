-- ===== src/Setuid/Strlcat.antt =====
-- `strlcat` of source/core/progs/setuid.c, over the array behind `dst`, refines the string view:
-- the text of `dst` with as much of `src` as fits.
pub mod Text
use ipcop_alpine.Prelude.{
  ℕ, zero, suc, ◌+◌, ◌-◌, ◌≡◌, ◌≢◌, ◌≤◌, ◌<◌, refl, ap, sym, ◌∙◌, Bool, true, false, List, [], ◌∷◌,
  ◌++◌, ◌==◌, ltb, if◌then◌else◌, arith, length, length-append, length-set, get_or, set, take, drop,
  All, append_assoc,
}
use ipcop_alpine.Cstring.{Bytes, c_string}

-- `while (tocopy-- && *dstptr) dstptr++;`
pub scan_end : ℕ → Bytes → ℕ → ℕ
scan_end zero dst pos = pos
scan_end (suc tocopy) dst pos =
    let more = scan_end tocopy dst (pos + 1) in if get_or dst pos 0 == 0 then pos else more

-- `while (*srcptr) { if (tocopy != 1) { *dstptr++ = *srcptr; tocopy--; } srcptr++; }`, then
-- `*dstptr = 0`.
pub copy_over : Bytes → ℕ → Bytes → ℕ → Bytes
copy_over [] tocopy dst pos = set dst pos 0
copy_over (c ∷ src) tocopy dst pos =
    let full = copy_over src tocopy dst pos in
    let more = copy_over src (tocopy - 1) (set dst pos c) (pos + 1) in
    if tocopy == 1 then full else more

-- The result and the array. `dst` is all of the array, with its NUL where it has one.
unfoldable pub strlcat : Bytes → Bytes → ℕ → ℕ × Bytes
unfolding scan_end copy_over
strlcat dst src len =
    let dstlen = scan_end len dst 0 in
    let tocopy = len - dstlen in
    (dstlen + length src, if tocopy == 0 then dst else copy_over src tocopy dst dstlen)
