-- ===== src/StrictPrivacy.antt =====
-- src/strict_privacy.cpp: how a message is stripped of its values before it is fingerprinted, and
-- what is kept of a path, an address or a span's name.
pub mod Messages
pub mod Paths
pub mod Sha256
pub mod Events
