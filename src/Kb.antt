-- ===== src/Kb.antt =====
-- src/KB: terms, tuples, literals and relations of the knowledge base.
pub mod Term
pub mod Tuple
pub mod Literal
pub mod Function
pub mod Relation
pub mod Rule
