-- ===== src/Relocate.antt =====
-- xrandrw/relocate.py: planning, the crash guard, and the record and restore machine.
pub mod Plan
pub mod Guard
pub mod Seam
pub mod Chain
pub mod Focus
pub mod Gate
pub mod Tagmon
pub mod Restore
pub mod Keeps
pub mod Cycle
