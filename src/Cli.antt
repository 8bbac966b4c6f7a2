-- ===== src/Cli.antt =====
-- cmd/cli/commands: what the command line client computes itself. Its HTTP calls, its flags and what
-- it prints are not modelled.
pub mod Text
pub mod Library
pub mod Passwords
pub mod Addresses
