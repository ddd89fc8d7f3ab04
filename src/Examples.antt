-- ===== src/Examples.antt =====
-- The theorems at concrete inputs, and tests.
mod Fonts
mod Screen
mod Boot
mod Locking
mod Memory
mod Mapping
mod NewPage
mod Network
mod Tasks
mod Frames
mod Devices
mod Platform
