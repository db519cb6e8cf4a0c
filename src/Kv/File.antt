-- ===== src/Kv/File.antt =====
-- `read_kv_from_file` and `write_kv_to_file` of source/core/progs/helper.c.
use ipcop_alpine.Prelude.{ℕ, ◌≡◌, true, not, [], ◌∷◌, ◌==◌, Bool-cases, inl, inr}
use ipcop_alpine.Cstring.{Bytes, codes, string_size, fgets_lines}
use ipcop_alpine.Os.{
  Os, M, History, done, pure, ◌>>=◌, ◌>>◌, choose, when, for_each, call, act, contents, fopen_read,
  fopen_write, flock_shared, flock_exclusive, flock_unlock, fclose, getgrnam, chown_web, chmod_660,
  fprintf,
}
use ipcop_alpine.Kv.{Kv, success, failure, read_kv_lines, print_item}

module _ (os : Os) where
  -- The result, and the list as the caller has it afterwards.
  unfoldable pub read_kv_from_file : Kv → Bytes → M (ℕ × Kv)
  read_kv_from_file kv filename = do
    opened ← call os (fopen_read filename)
    choose (not (opened == 0)) (pure (failure, kv)) do
      locked ← call os (flock_shared filename)
      choose (not (locked == 0)) (do act os (fclose filename); pure (failure, kv))
          do
            text ← contents os filename
            act os (flock_unlock filename)
            act os (fclose filename)
            pure (read_kv_lines kv (fgets_lines string_size text))

  unfoldable pub write_kv_to_file : Kv → Bytes → M ℕ
  write_kv_to_file kv filename = do
    opened ← call os (fopen_write filename)
    choose (not (opened == 0)) (pure failure) do
      locked ← call os (flock_exclusive filename)
      choose (not (locked == 0)) (do act os (fclose filename); pure failure)
          do
            group ← call os (getgrnam (codes "lighttpd"))
            when (group == 0) (act os (chown_web filename))
            act os (chmod_660 filename)
            for_each kv (λ item. act os (fprintf filename (print_item item)))
            act os (flock_unlock filename)
            act os (fclose filename)
            pure success

-- A read that succeeds gives the settings of what the file held then.
pub read_kv_from_file_value :
    (os : Os) (file : Bytes) (h h' : History) (rc : ℕ) (kv : Kv)
    → read_kv_from_file os [] file h ≡ done (rc, kv) h'
    → (rc == success) ≡ true
    → (g : History) × (kv ≡ (read_kv_lines [] (fgets_lines string_size (os.text g file))).1)
unfolding read_kv_from_file pure ◌>>=◌ choose call act contents
read_kv_from_file_value os file h h' rc kv e good =
    elim (Bool-cases (os.status h (fopen_read file) == 0)) [
      | inr shut ↦ cc (rw shut at e)
      | inl opened ↦ elim (Bool-cases (os.status (fopen_read file ∷ h) (flock_shared file) == 0)) [
        | inr busy ↦ cc (rw busy at rw opened at e)
        | inl locked ↦
            (flock_shared file ∷ fopen_read file ∷ h, (let q = rw locked at rw opened at e in cc))
      ]
    ]
