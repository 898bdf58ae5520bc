-- ===== src/Financial.antt =====
-- Fixed-point arithmetic (src/FinancialMath.cpp, include/FinancialMath.hpp).
pub mod Wide
pub mod Units
pub mod Values
pub mod Normalize
pub mod Tests
