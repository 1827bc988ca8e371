-- ===== src/Dns.antt =====
-- The registry over DNS: virtual/registry/dnsregistry/dns_registry.go. The hash ring is a copy of
-- that of groupcache, and a parameter.
pub mod State
pub mod Discovering
