-- ===== src/Std.antt =====
-- What the program uses of the C++ standard library beyond containers.
pub mod Decimal
