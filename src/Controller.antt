-- ===== src/Controller.antt =====
-- The controllers of src/hardware_dep/shared/ctrl_plane/dpdk_*_controller.c: the messages that they
-- build for the switch.
pub mod Parts
pub mod Seen
pub mod Session
pub mod Outbox
pub mod L2fwd
pub mod PsaL2fwd
pub mod L3fwd
pub mod Portfwd
pub mod StateMachine
pub mod Smgw
pub mod Learn
pub mod Tests
