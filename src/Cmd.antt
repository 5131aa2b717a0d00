-- ===== src/Cmd.antt =====
-- cmd/main.go
pub mod Options
pub mod Main
pub mod Starts
pub mod Hardened
