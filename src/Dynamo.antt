-- ===== src/Dynamo.antt =====
-- internal/dynamodb: the expression language of the DynamoDB emulator.
pub mod Value
pub mod Typed
pub mod Token
pub mod Lexer
pub mod Operand
pub mod DocPath
pub mod Compare
pub mod Cond
pub mod Parser
pub mod Refs
pub mod Filter
pub mod Projection
pub mod Update
