-- ===== src/Analysis.antt =====
-- Predictions, no-vig probabilities and point-in-time features: src/analysis.
pub mod Prediction
pub mod NoVig
pub mod Features
