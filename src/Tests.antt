-- ===== src/Tests.antt =====
-- Runs of the modelled code on small desktops, and each theorem at one of them.
mod Desktop
mod Matching
mod Relocating
mod Applying
mod Watching
mod Wiring
mod Reading
mod Configuring
mod Capturing
mod Painting
mod Exchanging
mod Spelling
mod Booting
mod Preferring
