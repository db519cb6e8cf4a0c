-- ===== src/Services.antt =====
-- The setuid programs of the services, source/services/*/progs, one module each.
pub mod Wireguard
pub mod Openvpn
pub mod Squid
pub mod Suricata
