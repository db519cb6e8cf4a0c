-- ===== src/Progs/Aliases/Commands.antt =====
-- The commands that setaliases runs, whatever its file holds and whatever the system answers.
use ipcop_alpine.Prelude.{ℕ, ◌≡◌, true, List, [], ◌∷◌, Option, All}
use ipcop_alpine.Cstring.{Bytes}
use ipcop_alpine.Valid.{valid_ip}
use ipcop_alpine.Os.{Os, Call, history_of}
use ipcop_alpine.Os.Trace.{
  Keeps, keeps, Keeps-bind, Keeps-act, Keeps-pure, Keeps-choose, Keeps-choose-not,
}
use ipcop_alpine.Setuid.Calls.{OnCommands, require_setuid-Keeps, read_ethernet_settings-Keeps}
use ipcop_alpine.Ethernet.{Ethernet}
use ipcop_alpine.Progs.Aliases.{
  AliasOption, verbose, help, unknown, flush_command, add_command, add_masked_command,
  arping_command, is_mask, read_options, leave, add_alias, set_aliases, main,
}

-- The four commands, with an address, and a mask, that passed their tests. The device names are
-- those of the settings.
pub data AliasCommand : Bytes → Type 0 where
  flush : (device : Option Bytes) → AliasCommand (flush_command device)
  add : (ip : Bytes) (device : Bytes) → valid_ip ip ≡ true → AliasCommand (add_command ip device)
  add_masked :
      (ip netmask : Bytes) (device : Bytes)
      → valid_ip ip ≡ true
      → is_mask netmask ≡ true
      → AliasCommand (add_masked_command ip netmask device)
  arping :
      (ip : Bytes) (device : Option Bytes)
      → valid_ip ip ≡ true
      → AliasCommand (arping_command ip device)

abbrev Kept : Call → Type 0
Kept = OnCommands AliasCommand

module _ (os : Os) where
  leave-Keeps : (n : ℕ) → Keeps Kept (leave os n)
  unfolding leave
  leave-Keeps n = search keeps depth 8

  add_alias-Keeps : (e : Ethernet) (fields : List Bytes) → Keeps Kept (add_alias os e fields)
  unfolding add_alias
  add_alias-Keeps e [] = leave-Keeps 1
  add_alias-Keeps e (ip ∷ []) = leave-Keeps 1
  add_alias-Keeps e (ip ∷ enabled ∷ []) = leave-Keeps 1
  add_alias-Keeps e (ip ∷ enabled ∷ comment ∷ []) = leave-Keeps 1
  add_alias-Keeps e (ip ∷ enabled ∷ comment ∷ netmask ∷ more) = Keeps-choose _ (Keeps-pure tt) (
      Keeps-choose-not (valid_ip ip) (λ _. leave-Keeps 1)
        λ good.
          Keeps-bind
            (Keeps-choose-not (is_mask netmask) (λ _. Keeps-act os _ (add ip e.red_device good))
              (λ masked. Keeps-act os _ (add_masked ip netmask e.red_device good masked)))
            (λ _. Keeps-act os _ (arping ip e.red_card.device good)))

  set_aliases-Keeps : (e : Ethernet) → Keeps Kept (set_aliases os e)
  unfolding set_aliases
  set_aliases-Keeps e = search (keeps, add_alias-Keeps, leave-Keeps, flush) depth 20

  read_options-Keeps : (options : List AliasOption) → Keeps Kept (read_options os options)
  unfolding read_options
  read_options-Keeps [] = search keeps
  read_options-Keeps (verbose ∷ options) = read_options-Keeps options
  read_options-Keeps (help ∷ options) = search keeps
  read_options-Keeps (unknown ∷ options) = search keeps

  main-Keeps : (options : List AliasOption) → Keeps Kept (main os options)
  unfolding main
  main-Keeps options =
      search
        (
          keeps, require_setuid-Keeps, read_options-Keeps, read_ethernet_settings-Keeps,
          set_aliases-Keeps,
        )
        depth 12

  -- Every command that setaliases runs flushes the aliases of a device, or adds or announces an
  -- address that passed `VALID_IP`, with a mask only if the mask passed its test.
  pub main-AliasCommand : (options : List AliasOption) → All Kept (history_of (main os options []))
  main-AliasCommand options = (main-Keeps options).kept [] tt
