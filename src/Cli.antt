-- ===== src/Cli.antt =====
-- xrandrw/cli.py: the preferred side of a head, and the boot seed of the coordinator.
pub mod Pref
pub mod Seed
