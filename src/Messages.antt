-- ===== src/Messages.antt =====
-- src/hardware_dep/shared/ctrl_plane/messages.c and messages.h: the binary messages between the
-- switch and its controller. A pointer to a struct is the address of its first byte, and each
-- function reads and writes the fields at their offsets (`Messages.Layout`).
pub mod Layout
pub mod Header
pub mod Entry
pub mod Action
pub mod Digest
pub mod Grow
pub mod ByteOrder
mod Tests
