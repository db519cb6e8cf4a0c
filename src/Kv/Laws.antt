-- ===== src/Kv/Laws.antt =====
-- Look-up and update of a `NODEKV` list against each other.
use ipcop_alpine.Prelude.{
  ◌≡◌, ◌↔◌, refl, [], ◌∷◌, none, some, if◌then◌else◌, arith, inl, inr, Option-cases,
}
use ipcop_alpine.Cstring.{Bytes, string_size, strcmp_eq, snprintf}
use ipcop_alpine.Cstring.Laws.{strcmp_eq_iff}
use ipcop_alpine.Kv.{
  Kv, success, failure, add_kv, find_kv, find_kv_default, test_kv, replace_kv, update_kv,
}

pub find_kv-add_kv :
    (kv : Kv) (k v j : Bytes)
    → find_kv (add_kv kv k v) j ≡ (if strcmp_eq k j then some v else find_kv kv j)
unfolding find_kv add_kv
find_kv-add_kv kv k v j = refl

replace_kv-none : (kv : Kv) (k v : Bytes) → replace_kv kv k v ≡ none → find_kv kv k ≡ none
unfolding replace_kv find_kv
replace_kv-none [] k v h = refl
replace_kv-none (item ∷ kv) k v h = ground (arith, replace_kv-none kv k v)

-- What the loop of `update_kv` makes of a list that has the key.
find_kv-replace_kv :
    (kv kv' : Kv) (k v j : Bytes)
    → replace_kv kv k v ≡ some kv'
    → find_kv kv' j ≡ (if strcmp_eq k j then some v else find_kv kv j)
unfolding replace_kv find_kv
find_kv-replace_kv [] kv' k v j h = cc
find_kv-replace_kv (item ∷ kv) kv' k v j h = elim (Option-cases (replace_kv kv k v)) [
  | inl e ↦ ground (arith, strcmp_eq_iff item.key k, strcmp_eq_iff item.key j, strcmp_eq_iff k j)
  | inr (rest, e) ↦ ground (
    arith,
    find_kv-replace_kv kv rest k v j e,
    strcmp_eq_iff item.key k,
    strcmp_eq_iff item.key j,
    strcmp_eq_iff k j,
  )
]

-- After an update a look-up finds the new value under the key, and under any other key what it
-- found before.
pub find_kv-update_kv :
    (kv : Kv) (k v j : Bytes)
    → find_kv (update_kv kv k v) j ≡ (if strcmp_eq k j then some v else find_kv kv j)
unfolding update_kv find_kv
find_kv-update_kv kv k v j = elim (Option-cases (replace_kv kv k v)) [
  | inl e ↦ rw (e, update_kv) (find_kv-add_kv kv k v j)
  | inr (kv', e) ↦ rw (e, update_kv) (find_kv-replace_kv kv kv' k v j e)
]

-- `find_kv_default` answers what `find_kv` finds, cut to the buffer of the caller, and leaves the
-- buffer as it was where the key is missing.
pub find_kv_default-find_kv :
    (kv : Kv) (k value : Bytes)
    → find_kv_default kv k value ≡ (elim (find_kv kv k) [
      | none ↦ (failure, value)
      | some found ↦ (success, snprintf string_size found)
    ])
unfolding find_kv_default find_kv
find_kv_default-find_kv [] k value = refl
find_kv_default-find_kv (item ∷ kv) k value = ground (arith, find_kv_default-find_kv kv k value)

-- `test_kv` succeeds exactly if `find_kv` finds the expected value.
pub test_kv_iff :
    (kv : Kv) (k expected : Bytes)
    → (test_kv kv k expected ≡ success) ↔ (find_kv kv k ≡ some expected)
unfolding test_kv
test_kv_iff kv k expected = elim (Option-cases (find_kv kv k)) [
  | inl e ↦ ground arith
  | inr (found, e) ↦ ground (arith, strcmp_eq_iff found expected)
]
