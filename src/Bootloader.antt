-- ===== src/Bootloader.antt =====
-- bootloader/src: what the boot loader does before it enters the kernel.
pub mod Elf
pub mod Font
pub mod Framebuffer
pub mod Start
