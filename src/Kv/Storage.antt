-- ===== src/Kv/Storage.antt =====
-- A settings file that was written and is read again: what stands in the file, and what comes back.
use ipcop_alpine.Prelude.{
  ℕ, ◌≡◌, refl, ap, sym, ◌∙◌, true, [], ◌∷◌, ◌++◌, ◌==◌, if◌then◌else◌, All, reverse, arith,
  append_assoc, append-nil, Bool-cases, inl, inr,
}
use ipcop_alpine.Cstring.{codes, Bytes, strcmp_eq, string_size, fgets_lines}
use ipcop_alpine.Cstring.Laws.{strcmp_eq_iff}
use ipcop_alpine.Os.{
  Os, History, done, M, pure, ◌>>=◌, ◌>>◌, choose, when, for_each, call, act, contents, fopen_read,
  fopen_write, flock_shared, flock_exclusive, flock_unlock, fclose, getgrnam, chown_web, chmod_660,
  fprintf, Call,
}
use ipcop_alpine.Os.Returns.{after_value}
use ipcop_alpine.Kv.{Kv, success, print_item, print_kv, read_kv_lines}
use ipcop_alpine.Kv.File.{read_kv_from_file, write_kv_to_file}
use ipcop_alpine.Kv.RoundTrip.{IsStorable, read-print_kv}

-- What a file holds that takes every write, where only this program writes it: opening it for writing
-- empties it.
abbrev pub file_text : Bytes → History → Bytes
file_text file [] = []
file_text file (fopen_write f ∷ h) = if strcmp_eq f file then [] else file_text file h
file_text file (fprintf f s ∷ h) =
    if strcmp_eq f file then file_text file h ++ s else file_text file h
file_text file (_ ∷ h) = file_text file h

-- The calls of the loop, in front of those before it.
abbrev writes : Bytes → Kv → History → History
writes file [] h = h
writes file (item ∷ kv) h = writes file kv (fprintf file (print_item item) ∷ h)

strcmp_eq_self : (s : Bytes) → strcmp_eq s s ≡ true
strcmp_eq_self s = (strcmp_eq_iff s s).1 refl

-- The calls of the write that leave the text of the file as it is.
pub data Keeping (file : Bytes) : Call → Type 0 where
  by_group : (name : Bytes) → Keeping file (getgrnam name)
  by_owner : Keeping file (chown_web file)
  by_mode : Keeping file (chmod_660 file)
  by_lock : Keeping file (flock_exclusive file)
  by_unlock : Keeping file (flock_unlock file)
  by_close : Keeping file (fclose file)

-- What a file system does that takes every write: opening for writing empties the file, printing
-- appends to it, and the calls above keep it.
pub record TakesWrites (file : Bytes) (text : History → Bytes) : Type 0 where
  pub emptied : (g : History) → text (fopen_write file ∷ g) ≡ []
  pub appended : (g : History) (s : Bytes) → text (fprintf file s ∷ g) ≡ text g ++ s
  pub kept : (g : History) (c : Call) → Keeping file c → text (c ∷ g) ≡ text g

pub file_text-TakesWrites : (file : Bytes) → TakesWrites file (file_text file)
file_text-TakesWrites file = record {
  emptied = λ g. rw (strcmp_eq_self file) refl;
  appended = λ g s. rw (strcmp_eq_self file) refl;
  kept = kept;
}
  where
    kept : (g : History) (c : Call) → Keeping file c → file_text file (c ∷ g) ≡ file_text file g
    kept g _ (by_group name) = refl
    kept g _ by_owner = refl
    kept g _ by_mode = refl
    kept g _ by_lock = refl
    kept g _ by_unlock = refl
    kept g _ by_close = refl

text-writes :
    (file : Bytes) (text : History → Bytes) (kv : Kv) (h : History)
    → TakesWrites file text
    → text (writes file kv h) ≡ text h ++ print_kv kv
unfolding print_kv
text-writes file text [] h t = sym (append-nil (text h))
text-writes file text (item ∷ kv) h t =
    text-writes file text kv (fprintf file (print_item item) ∷ h) t
    ∙ (ap (◌++ print_kv kv) (t.appended h (print_item item))
        ∙ append_assoc (text h) (print_item item) (print_kv kv))

for_each-writes :
    (os : Os) (file : Bytes) (kv : Kv) (h : History)
    → for_each kv (λ item. act os (fprintf file (print_item item))) h ≡ done tt (writes file kv h)
unfolding for_each pure ◌>>=◌ act
for_each-writes os file [] h = refl
for_each-writes os file (item ∷ kv) h =
    for_each-writes os file kv (fprintf file (print_item item) ∷ h)

module _ (os : Os) (kv : Kv) (file : Bytes) where
  -- The tail of the write: the loop, and the calls behind it.
  write_items : M (Unit {0})
  write_items = for_each kv (λ item. act os (fprintf file (print_item item)))

  close_file : M ℕ
  close_file = do act os (flock_unlock file); act os (fclose file); pure success

  finish : M ℕ
  unfolding write_items close_file
  finish = write_items >> close_file

  close_file_lem : (g : History) → close_file g ≡ done success (fclose file ∷ flock_unlock file ∷ g)
  unfolding close_file pure ◌>>=◌ act
  close_file_lem g = refl

  finish_lem :
      (g : History) → finish g ≡ done success (fclose file ∷ flock_unlock file ∷ writes file kv g)
  unfolding finish write_items
  finish_lem g =
      after_value write_items (λ _. close_file) g (writes file kv g) tt
        (for_each-writes os file kv g)
      ∙ close_file_lem (writes file kv g)

  -- The histories before the loop: the group of the web server is there, or not.
  abbrev unknown_group : History → History
  unknown_group h =
      chmod_660 file ∷ getgrnam (codes "lighttpd") ∷ flock_exclusive file ∷ fopen_write file ∷ h

  abbrev known_group : History → History
  known_group h =
      chmod_660 file
      ∷ chown_web file
      ∷ getgrnam (codes "lighttpd")
      ∷ flock_exclusive file
      ∷ fopen_write file
      ∷ h

  -- The file is empty before the loop and holds the settings behind it.
  finish_text :
      (text : History → Bytes) (g : History)
      → TakesWrites file text
      → text g ≡ []
      → (h' : History) × (finish g ≡ done success h') × (text h' ≡ print_kv kv)
  finish_text text g t e = (
    fclose file ∷ flock_unlock file ∷ writes file kv g,
    finish_lem g,
    t.kept _ _ by_close
        ∙ (t.kept _ _ by_unlock ∙ (text-writes file text kv g t ∙ ap (◌++ print_kv kv) e)),
  )

  locked_text :
      (text : History → Bytes) (h : History)
      → TakesWrites file text
      → text (getgrnam (codes "lighttpd") ∷ flock_exclusive file ∷ fopen_write file ∷ h) ≡ []
  locked_text text h t =
      t.kept _ _ (by_group (codes "lighttpd")) ∙ (t.kept _ _ by_lock ∙ t.emptied h)

  written_text :
      (text : History → Bytes) (h : History)
      → TakesWrites file text
      → os.status h (fopen_write file) ≡ 0
      → os.status (fopen_write file ∷ h) (flock_exclusive file) ≡ 0
      → (h' : History) × (write_kv_to_file os kv file h ≡ done success h') × (text h' ≡ print_kv kv)
  unfolding write_kv_to_file pure ◌>>=◌ choose when call act finish write_items close_file
  written_text text h t opened locked =
      let empty = locked_text text h t in
      elim (Bool-cases (
        os.status (flock_exclusive file ∷ fopen_write file ∷ h) (getgrnam (codes "lighttpd"))
        == 0)) [
          | inl known ↦
              rw (opened, locked, known)
                (finish_text text (known_group h) t
                  (t.kept _ _ by_mode ∙ (t.kept _ _ by_owner ∙ empty)))
          | inr unknown ↦
              rw (opened, locked, unknown)
                (finish_text text (unknown_group h) t (t.kept _ _ by_mode ∙ empty))
        ]

  -- Where the file can be opened and locked, and takes every write: the write of the settings ends with
  -- SUCCESS, and the file then holds exactly the printed settings, whatever was there before.
  pub write_kv_to_file-text :
      (h : History)
      → TakesWrites file (λ g. os.text g file)
      → os.status h (fopen_write file) ≡ 0
      → os.status (fopen_write file ∷ h) (flock_exclusive file) ≡ 0
      → (h' : History) × (write_kv_to_file os kv file h ≡ done success h')
        × (os.text h' file ≡ print_kv kv)
  write_kv_to_file-text h = written_text (λ g. os.text g file) h

  -- A write ends with SUCCESS only where the file could be opened and locked.
  success_lem :
      (h h' : History)
      → write_kv_to_file os kv file h ≡ done success h'
      → (os.status h (fopen_write file) ≡ 0)
        × (os.status (fopen_write file ∷ h) (flock_exclusive file) ≡ 0)
  unfolding write_kv_to_file pure ◌>>=◌ choose when call act
  success_lem h h' e = elim (Bool-cases (os.status h (fopen_write file) == 0)) [
    | inr shut ↦ cc (rw shut at e)
    | inl opened ↦
        elim (Bool-cases (os.status (fopen_write file ∷ h) (flock_exclusive file) == 0)) [
          | inr busy ↦ cc (rw busy at rw opened at e)
          | inl locked ↦ (ground (arith, opened), ground (arith, locked))
        ]
  ]

  write_kv_to_file-file_text :
      (h h' : History)
      → write_kv_to_file os kv file h ≡ done success h'
      → file_text file h' ≡ print_kv kv
  write_kv_to_file-file_text h h' e =
      let (opened, locked) = success_lem h h' e in
      let (g, r, q) = written_text (file_text file) h (file_text-TakesWrites file) opened locked in
      let same : g ≡ h' = ending (sym r ∙ e) in ap (file_text file) (sym same) ∙ q
    where
      ending : {n m : ℕ} {x y : History} → done n x ≡ done m y → x ≡ y
      ending q = cc

  -- Where a file holds what the program wrote, settings that the format can express come back from
  -- a successful write by a read whose open and lock succeed, each put in front of the list.
  pub read_kv_from_file-write_kv_to_file :
      (acc : Kv) (h h' : History)
      → ((g : History) → os.text g file ≡ file_text file g)
      → All IsStorable kv
      → write_kv_to_file os kv file h ≡ done success h'
      → os.status h' (fopen_read file) ≡ 0
      → os.status (fopen_read file ∷ h') (flock_shared file) ≡ 0
      → read_kv_from_file os acc file h'
        ≡ done
            (success, reverse kv ++ acc)
            (fclose file ∷ flock_unlock file ∷ flock_shared file ∷ fopen_read file ∷ h')
  unfolding read_kv_from_file pure ◌>>=◌ choose call act contents
  read_kv_from_file-write_kv_to_file acc h h' holds w e opened locked =
      let text : os.text (flock_shared file ∷ fopen_read file ∷ h') file ≡ print_kv kv =
        holds (flock_shared file ∷ fopen_read file ∷ h') ∙ write_kv_to_file-file_text h h' e in
      let result =
        ap (λ t. read_kv_lines acc (fgets_lines string_size t)) text ∙ read-print_kv kv acc w in
      rw opened (
        rw locked (
          ap
            (λ r.
              done r (fclose file ∷ flock_unlock file ∷ flock_shared file ∷ fopen_read file ∷ h'))
            result))
