-- ===== src/Tests.antt =====
-- Runs at concrete inputs, and the theorems applied there.
mod Settings
mod Programs
mod Commands
mod Backups
mod Installer
