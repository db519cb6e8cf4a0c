-- ===== src/Progs.antt =====
-- The setuid helper programs of source/core/progs, one module each.
pub mod Aliases
pub mod FwRules
pub mod Red
pub mod Signal
pub mod Helper
pub mod Dhcp
pub mod Hosts
pub mod Accounting
pub mod Ntp
pub mod Shaping
pub mod Date
pub mod Reboot
pub mod Endings
pub mod Ssh
pub mod Syslog
pub mod Ipsec
pub mod Backup
pub mod Bkcfg
pub mod Fcdsl
pub mod Floppy
pub mod Sysinfo
pub mod Email
pub mod Package
pub mod Restore
