-- ===== src/Tables.antt =====
-- src/hardware_dep/dpdk/data_plane/dpdk_tables.c and the files that it includes: the lookup tables,
-- over DPDK's hash and longest prefix match, which are parameters, and over the ternary table.
pub mod Entry
pub mod Exact
pub mod Prefix
pub mod Naive
mod Slots
pub mod Manage
mod Tests
