-- ===== src/Utils.antt =====
-- src/utils.cpp and include/beauty/utils.hpp.
pub mod Split
pub mod Escape
pub mod Names
