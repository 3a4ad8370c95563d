-- ===== src/Examples.antt =====
-- Tests of the model on concrete inputs, and the results of Lib.antt applied to concrete inputs.
pub mod Kms
pub mod Cognito
pub mod Pages
pub mod Data
pub mod Expressions
pub mod Items
pub mod Paths
pub mod Changes
