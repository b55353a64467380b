-- ===== src/Docgen.antt =====
-- common/core/docgen/events.py, and the command docgen that renders what it finds. A module is known by
-- its syntax tree, which the library `ast` makes.
pub mod Syntax
pub mod Scopes
pub mod Visitor
pub mod Walk
pub mod Described
pub mod Steps
pub mod Walks
pub mod Merge
pub mod Merging
pub mod Located
pub mod Files
pub mod Documents
mod Examples
