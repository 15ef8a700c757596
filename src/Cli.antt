-- ===== src/Cli.antt =====
-- cli/: the commands that serve and join vaults. Argument parsing and printing are left out.
pub mod Network
