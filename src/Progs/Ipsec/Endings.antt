-- ===== src/Progs/Ipsec/Endings.antt =====
-- Every run of ipsecctrl ends by `exit`: `strcmp` is not reached with a pointer that is NULL.
use ipcop_alpine.Prelude.{
  ℕ, ◌≡◌, ◌≢◌, refl, Bool, true, false, not, ◌&&◌, ◌||◌, List, [], ◌∷◌, Option, none, some, ◌⊎◌,
  inl, inr, Bool-cases, Option-cases, arith,
}
use ipcop_alpine.Cstring.{Bytes}
use ipcop_alpine.Kv.{Kv}
use ipcop_alpine.Ethernet.{Ethernet, Colour}
use ipcop_alpine.Ethernet.RedType.{read_ethernet_settings-red_type}
use ipcop_alpine.Os.{Os, ◌>>=◌, ◌>>◌, pure, choose, when, History, done}
use ipcop_alpine.Os.Exits.{
  Behaves, Exits, behaves, exits, Behaves-pure, Behaves-exit, Behaves-bind, Behaves-when,
  Exits-bind, Exits-bind_value, Exits-first, Exits-exit, Exits-choose, Exits-when, Exits-cases,
}
use ipcop_alpine.Setuid.Behaviour.{
  require_setuid-Behaves, read_kv_from_file-Behaves, read_ethernet_settings-Behaves,
}
use ipcop_alpine.Progs.Ipsec.{
  Tunnel, Scan, attach_aliases, is_static, add_alias_interfaces, turn_connection_on,
  turn_connection_off,
}
use ipcop_alpine.Progs.Ipsec.Control.{
  IpsecOption, IpsecFlags, start, stop, status, reload, wait, verbose, help, unknown, read_options,
  needs_work, is_key, has_key, count_enabled, ipsec_running, stop_ipsec, plain_operations,
  start_pluto, start_system, must_start, same_key, handle_tunnel, find_connection, finish,
  run_tunnels, control, main,
}

read_options-Behaves :
    (options : List IpsecOption) (f : IpsecFlags) → Behaves (read_options options f)
unfolding read_options
read_options-Behaves [] f = Behaves-pure f
read_options-Behaves (start o ∷ options) f = read_options-Behaves options _
read_options-Behaves (stop o ∷ options) f = read_options-Behaves options _
read_options-Behaves (status ∷ options) f = read_options-Behaves options _
read_options-Behaves (reload ∷ options) f = read_options-Behaves options _
read_options-Behaves (wait ∷ options) f = read_options-Behaves options _
read_options-Behaves (verbose ∷ options) f = read_options-Behaves options _
read_options-Behaves (help ∷ options) f = Behaves-exit 0
read_options-Behaves (unknown ∷ options) f = Behaves-exit 1

count_enabled-Behaves :
    (kv : Kv) (e : Ethernet) (colours : List Colour) (n : ℕ)
    → Behaves (count_enabled kv e colours n)
unfolding count_enabled
count_enabled-Behaves kv e [] n = Behaves-pure n
count_enabled-Behaves kv e (colour ∷ colours) n =
    let rest : (m : ℕ) → Behaves (count_enabled kv e colours m) =
      λ m. count_enabled-Behaves kv e colours m in
    search (behaves, rest) depth 8

no_key : (f : IpsecFlags) → f.connection ≡ none → not (has_key f.connection) ≡ true
unfolding has_key
no_key f c = rw c refl

module _ (os : Os) where
  attach_aliases-Behaves :
      (chatty : Bool) (device : Bytes) (offset alias : ℕ) (lines : List Bytes)
      → Behaves (attach_aliases os chatty device offset alias lines)
  unfolding attach_aliases
  attach_aliases-Behaves chatty device offset alias [] = search behaves depth 4
  attach_aliases-Behaves chatty device offset alias (line ∷ lines) =
      let rest : (n : ℕ) → Behaves (attach_aliases os chatty device offset n lines) =
        λ n. attach_aliases-Behaves chatty device offset n lines in
      search (behaves, rest) depth 12

  is_static-Behaves :
      (chatty : Bool) (e : Ethernet) → e.red_type ≢ none → Behaves (is_static os chatty e)
  unfolding is_static
  is_static-Behaves chatty e h = elim (Option-cases e.red_type) [
    | inl missing ↦ absurd (h missing)
    | inr (type, found) ↦ rw (found, is_static) (Behaves-pure _)
  ]

  add_alias_interfaces-Behaves :
      (chatty : Bool) (e : Ethernet) (offset : ℕ)
      → e.red_type ≢ none
      → Behaves (add_alias_interfaces os chatty e offset)
  unfolding add_alias_interfaces
  add_alias_interfaces-Behaves chatty e offset h = Behaves-when _ (
      Behaves-bind (is_static-Behaves chatty e h)
        λ static. search (behaves, attach_aliases-Behaves) depth 20)

  ipsec_running-Behaves : Behaves (ipsec_running os)
  unfolding ipsec_running
  ipsec_running-Behaves = search behaves depth 8

  stop_ipsec-Exits : Exits (stop_ipsec os)
  unfolding stop_ipsec ipsec_running
  stop_ipsec-Exits = search exits depth 20

  start_pluto-Behaves : (chatty : Bool) → Behaves (start_pluto os chatty)
  unfolding start_pluto
  start_pluto-Behaves chatty = search behaves depth 20

  must_start-Behaves : (f : IpsecFlags) → Behaves (must_start os f)
  unfolding must_start ipsec_running
  must_start-Behaves f = search behaves depth 20

  turn_connection_on-Behaves :
      (chatty : Bool) (name type : Bytes) → Behaves (turn_connection_on os chatty name type)
  unfolding turn_connection_on
  turn_connection_on-Behaves chatty name type = search behaves depth 12

  turn_connection_off-Behaves :
      (chatty : Bool) (name : Bytes) → Behaves (turn_connection_off os chatty name)
  unfolding turn_connection_off
  turn_connection_off-Behaves chatty name = search behaves depth 12

  -- Behind a start without a connection the program is over.
  start_system-Exits :
      (f : IpsecFlags) (kv : Kv) (e : Ethernet) (s : Scan)
      → e.red_type ≢ none
      → f.connection ≡ none
      → Exits (start_system os f kv e s)
  unfolding start_system
  start_system-Exits f kv e s h c = Exits-bind (search behaves depth 4) λ _.
      Exits-bind (start_pluto-Behaves _) λ _.
        Exits-bind (add_alias_interfaces-Behaves _ e _ h)
          λ _. Exits-when _ (no_key f c) (search exits depth 4)

  start_system-Behaves :
      (f : IpsecFlags) (kv : Kv) (e : Ethernet) (s : Scan)
      → e.red_type ≢ none
      → Behaves (start_system os f kv e s)
  unfolding start_system
  start_system-Behaves f kv e s h = Behaves-bind (search behaves depth 4) λ _.
      Behaves-bind (start_pluto-Behaves _)
        λ _. Behaves-bind (add_alias_interfaces-Behaves _ e _ h) λ _. search behaves depth 8

  handle_tunnel-Behaves :
      (f : IpsecFlags) (o : Option Tunnel) (key : Bytes)
      → f.connection ≡ some key
      → Behaves (handle_tunnel os f o)
  unfolding handle_tunnel same_key
  handle_tunnel-Behaves f none key c = Behaves-pure tt
  handle_tunnel-Behaves f (some t) key c =
      Behaves-bind (rw c (Behaves-pure _))
        λ same. search (behaves, turn_connection_on-Behaves, turn_connection_off-Behaves) depth 8

  find_connection-Exits :
      (f : IpsecFlags) (key : Bytes) → f.connection ≡ some key → Exits (find_connection os f)
  unfolding find_connection
  find_connection-Exits f key c =
      let handled : (o : Option Tunnel) → Behaves (handle_tunnel os f o) =
        λ o. handle_tunnel-Behaves f o key c in
      search (exits, handled) depth 20

  must_start_value :
      (f : IpsecFlags)
      → f.flag_start ≡ true
      → f.connection ≡ none
      → (h h' : History) (b : Bool) → must_start os f h ≡ done b h'
      → b ≡ true
  unfolding must_start choose pure has_key
  must_start_value f started c h h' b e = let e' = rw (started, c) at e in cc

  -- A connection is there, or the program was asked to start the system.
  finish-Exits :
      (f : IpsecFlags) (kv : Kv) (e : Ethernet) (s : Scan)
      → e.red_type ≢ none
      → (f.flag_start ≡ true) ⊎ ((key : Bytes) × (f.connection ≡ some key))
      → Exits (finish os f kv e s)
  unfolding finish
  finish-Exits f kv e s h work = Exits-choose _ (Exits-exit 1) (
      Exits-bind (search behaves)
        λ _. Exits-choose _ (Exits-exit 0) (rest (Option-cases f.connection)))
    where
      rest :
          (f.connection ≡ none) ⊎ ((key : Bytes) × (f.connection ≡ some key))
          → Exits (
              must_start os f >>= λ needed.
              when needed (start_system os f kv e s) >> find_connection os f)
      rest (inl c) = elim work [
        | inr (key, c') ↦ cc
        | inl started ↦
            Exits-bind_value (λ b. b ≡ true) (must_start-Behaves f) (must_start_value f started c)
              λ needed t. Exits-first _ (Exits-when needed t (start_system-Exits f kv e s h c))
      ]
      rest (inr (key, c)) = Exits-bind (must_start-Behaves f) λ needed.
          Exits-bind (Behaves-when _ (start_system-Behaves f kv e s h))
            λ _. find_connection-Exits f key c

  run_tunnels-Exits :
      (f : IpsecFlags)
      → (f.flag_start ≡ true) ⊎ ((key : Bytes) × (f.connection ≡ some key))
      → Exits (run_tunnels os f)
  unfolding run_tunnels
  run_tunnels-Exits f work = Exits-bind (search behaves) λ _.
      Exits-bind_value (λ r. (r.1).red_type ≢ none) (read_ethernet_settings-Behaves os true)
        (read_ethernet_settings-red_type os)
        λ r set. Exits-bind (read_kv_from_file-Behaves os _ _) λ k. Exits-choose _ (Exits-exit 1) (
          Exits-bind (count_enabled-Behaves _ _ _ _) λ n. Exits-choose _ stop_ipsec-Exits (
            Exits-bind (search behaves) λ opened. Exits-bind (search behaves) λ _.
              Exits-bind (search behaves)
                λ text. Exits-bind (search behaves) λ _. finish-Exits f _ _ _ set work))

  plain_operations-Exits :
      (f : IpsecFlags)
      → (f.flag_stop || (f.flag_status || f.flag_reload)) ≡ true
      → Exits (plain_operations os f)
  unfolding plain_operations
  plain_operations-Exits f e =
      Exits-cases f.flag_stop (λ _. stop_ipsec-Exits)
        λ no_stop.
          Exits-cases f.flag_reload (λ _. search exits depth 8)
            λ no_reload.
              Exits-when f.flag_status (ground arith)
                (search (exits, ipsec_running-Behaves) depth 12)

  plain_operations-Behaves : (f : IpsecFlags) → Behaves (plain_operations os f)
  unfolding plain_operations stop_ipsec
  plain_operations-Behaves f = search (behaves, ipsec_running-Behaves) depth 20

  control-Exits : (f : IpsecFlags) → Exits (control os f)
  unfolding control
  control-Exits f =
      Exits-cases _ (λ _. Exits-exit 1)
        λ good.
          Exits-bind (require_setuid-Behaves os)
            λ _. Exits-bind (search behaves depth 4) λ _. rest good (Option-cases f.connection)
    where
      rest :
          not (needs_work f && is_key f.connection) ≡ false
          → (f.connection ≡ none) ⊎ ((key : Bytes) × (f.connection ≡ some key))
          → Exits (when (not (has_key f.connection)) (plain_operations os f) >> run_tunnels os f)
      rest good (inr (key, c)) =
          Exits-bind (Behaves-when _ (plain_operations-Behaves f))
            λ _. run_tunnels-Exits f (inr (key, c))
      rest good (inl c) = elim (Bool-cases (f.flag_stop || (f.flag_status || f.flag_reload))) [
        | inl e ↦ Exits-first _ (Exits-when _ (no_key f c) (plain_operations-Exits f e))
        | inr e ↦
            Exits-bind (Behaves-when _ (plain_operations-Behaves f))
              λ _. run_tunnels-Exits f (inl (ground arith))
      ]

  -- Every run of ipsecctrl ends by exit: neither a connection nor a type of RED that is NULL is read.
  pub ipsec-Exits : (options : List IpsecOption) → Exits (main os options)
  unfolding main
  ipsec-Exits options = Exits-bind (read_options-Behaves options _) control-Exits
