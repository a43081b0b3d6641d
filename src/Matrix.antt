-- ===== src/Matrix.antt =====
-- matrix-2.0 and matrix-3.0: chains of products, and an interpreter of a small language by matrices.
pub mod Tokenizer
pub mod Words
pub mod Result
pub mod Dense
pub mod Expression
pub mod Interpreter
pub mod Chain
