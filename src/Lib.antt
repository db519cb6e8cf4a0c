-- ===== src/Lib.antt =====
-- The setuid helper programs of IPCop (source/core/progs), those of its services
-- (source/services/*/progs), the code that they share, and parts of the installer
-- (source/core/installer).
--
-- The web interface of the firewall runs small C programs as root. Each puts its environment in a
-- known state (`initsetuid`), reads settings files, checks what it read, and runs commands
-- through `safe_system`. The development models the shared code, 29 of the programs, what they
-- ask of the operating system, and what the installer does behind its dialogs: its partitions,
-- packages, list of hardware and restore.
--
-- Prelude: names of the standard library, Boolean tests, lists and their lemmas; Prelude.Int: the
--   integers.
-- Cstring: C strings as lists of byte values, and the libc functions on them that the programs
--   use. A buffer of a fixed size shows as truncation. Cstring.Laws holds their lemmas.
-- Os: the calls of the programs as a history, newest first. A program is a function of the
--   history; it ends with a value, by `exit`, by a fault, or by becoming another program. The
--   system is a parameter that may answer any call in any way. Os.Trace, Os.Footprint, Os.Returns
--   and Os.Exits hold the rules for what all calls of a program meet, and for how it ends;
--   Os.Tidy those for a file that a program creates for itself, Os.Temp those for temporary
--   files, Os.Yields those for the value that a program ends with, and Os.Guard those for
--   commands that wait for another one.
-- Kv: `add_kv`, `find_kv`, `find_kv_default`, `test_kv`, `update_kv` and the line grammar of
--   source/core/progs/helper.c; Kv.File: `read_kv_from_file`, `write_kv_to_file`; Kv.CommandLine:
--   `read_kv_from_line`; Kv.Laws, Kv.RoundTrip, Kv.CommandLine.RoundTrip and Kv.Storage:
--   theorems, the last for a file that is written and read again.
-- Valid: the `VALID_*` macros of source/core/progs/common.h, `VALID_IP`, `getipcopversion`,
--   `get_title` (Valid.Title), and the conversions of `sscanf` that they use; Valid.Quad and
--   Valid.Version: theorems, on the lemmas of Valid.Ip and Valid.Bits.
-- Number: `atoi`, `strtol` and `%d` on 32-bit patterns.
-- Ethernet: `read_ethernet_settings` and `struct ethernet_s`, with one card for each colour, as
--   MAX_NETWORK_COLOUR is 1; Ethernet.Laws and Ethernet.RedType: what it leaves behind.
-- Setuid: `initsetuid` and `system_core` of source/core/progs/setuid.c; Setuid.Strlcat: `strlcat`
--   on an array of bytes; Setuid.Log: the debug log, with theorems in Setuid.Log.Lines;
--   Setuid.Privileges, Setuid.Initial, Setuid.Footprint, Setuid.Calls, Setuid.Behaviour: theorems
--   and lemmas.
-- Progs: one module for each program, with the options as the list of what `getopt_long` returns:
--   Aliases (setaliases.c), FwRules (setfwrules.c), Red (red.c and conntrack_helper.c), Dhcp
--   (restartdhcp.c), Hosts (rebuildhosts.c), Accounting (accountingctrl.c), Ntp (restartntpd.c),
--   Shaping (restartshaping.c), Date (setdate.c), Reboot (ipcopreboot.c), Ssh (restartssh.c),
--   Syslog (restartsyslogd.c), Ipsec and Ipsec.Control (ipsecctrl.c), Backup (helper_backup.c),
--   Sysinfo (sysinfo.c, iptableswrapper.c, rebuildlangtexts.c), Email and Email.Sending
--   (emailhelper.c), Package (installpackage.c), Restore and Restore.Steps (ipcoprestore.c),
--   Bkcfg, Bkcfg.Steps and Bkcfg.Control (ipcopbkcfg.c), Floppy (ipcopbackup.c), Fcdsl
--   (installfcdsl.c), and of helper.c Signal (`mysignalpidfile`) and Helper (`mysystem`, `getmac`
--   and others). The other child modules of a program hold its theorems; Progs.Endings is about
--   how three of the programs end.
-- Services: Wireguard (restartwireguard.c), Openvpn (restartopenvpn.c), Squid and Squid.Control
--   (restartsquid.c), Suricata and Suricata.Control (restartsuricata.c); Squid.Bypass: theorems.
--   The services have copies of helper.c and setuid.c, with the same text as those of
--   source/core/progs.
-- Installer: Apk (helper_apk.c), Openrc (helper_openrc.c), Partition, Raid, Disk and Boot
--   (partition.c), Hardware and Hardware.Ide (hardware.c: the list of the hardware, the size of a
--   drive, the scan of the drives) and Restore (restore.c); their other child modules hold the
--   theorems. `make_ipcop_disk` of Boot sets a disk up by Partition, which calls Raid, then by
--   Disk, which calls Apk and Openrc. Kernel (helper_kernel.c) finds the modules of the
--   kernel, and Hostname (host_domain.c) writes the files with the name of the host.
-- Tests: small runs and instances.
--
-- Bounds and fuel: `print_decimal` has fuel for 20 digits, more than any `int` needs. The words
-- of a command line are read on the length of the line plus one, and each round takes a byte. The
-- two loops of restartsquid that wait for its daemon are on the 15 rounds that they may take. All
-- other loops are structural. The rounds of the select loop and of the wait loop of `system_core`
-- are given as lists of what the system reports; those in which a RAID is waited for as a number.
--
-- Not modelled: messages to the terminal, memory, the output that `system_core` captures, so also
-- its call of `log_command_execution`; of the installer its dialogs, its handling of the network
-- and of passwords, and the scans of the PCI and USB devices. What `strftime`, `gethostname`,
-- `mkdtemp` and `mkstemp` give is a parameter of the programs that call them. A command of
-- `safe_system` stands in the history as one call. Where a file holds a NUL, a line is the text
-- before it. The products of restartshaping are those of `int` below a stated bound; above it C
-- leaves them undefined.
pub mod Prelude
pub mod Cstring
pub mod Kv
pub mod Valid
pub mod Os
pub mod Number
pub mod Ethernet
pub mod Setuid
pub mod Progs
pub mod Services
pub mod Installer
mod Tests
