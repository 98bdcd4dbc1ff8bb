-- ===== src/Eval.antt =====
-- src/Eval: the evaluation of rules over relations.
pub mod Selection
pub mod Projection
pub mod Join
pub mod Merge
pub mod Unknown
pub mod Disjunction
pub mod Sort
pub mod Functions
pub mod Subgoal
pub mod Create
pub mod Variables
pub mod LiteralOrder
pub mod Rule
pub mod Disjuncts
pub mod Aggregate
pub mod Query
pub mod Naive
pub mod SemiNaive
