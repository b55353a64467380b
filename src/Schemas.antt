-- ===== src/Schemas.antt =====
-- flagsmith_schemas/: the typed dictionaries of the documents in DynamoDB and of the SDK API, and their
-- validation by pydantic.
pub mod Types
pub mod Dynamodb
pub mod Environments
pub mod Api
pub mod Validation
pub mod Acceptance
pub mod States
pub mod Identities
pub mod Compression
pub mod Examples
