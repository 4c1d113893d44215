-- ===== src/Tracker.antt =====
-- src/forge_ops_tracker.cpp: the functions that a program calls, over the state of one thread: its
-- breadcrumbs and user, its open trace, and what it captures.
pub mod Breadcrumbs
pub mod Scopes
pub mod Captures
mod Tests
