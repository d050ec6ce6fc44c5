-- ===== src/Cpp.antt =====
-- my_Blocks_c++/: the parts of the earlier version of the program, in C++, that stand on its block
-- device and its block map.
pub mod Host
pub mod Master
pub mod Nodes
pub mod Console
