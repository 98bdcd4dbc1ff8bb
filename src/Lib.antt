-- ===== src/Lib.antt =====
-- FOVRiS evaluates the rules of the four-valued language 4QL over a base of facts. A fact carries one
-- of the values false, unknown, incons and true; a rule joins the facts of its body literals, its
-- disjuncts are put together, and the results are merged into the relation of its head, until nothing
-- changes. These files model the evaluation, from the truth values up to the fixpoint loops, and the
-- knowledge base, which checks the modules it is given and converts them.
--
-- The parts, and how they interact:
-- * Truth (include/fovris/TruthValue.h, src/TruthValue.cc): the values and their connectives by table;
--   Truth/Set (src/TruthValueSet.cc): the sets that constrain a literal.
-- * Kb/Term, Kb/Tuple (src/KB/KBTerm.h, src/KB/KBGroundTerm.h, src/KB/KBTuple.h,
--   include/fovris/Array.h): interned terms as numbers, arrays of them as lists, and facts.
-- * Kb/Literal, Kb/Function (src/KB/KBLiteral.cc, src/KB/KBRuleLiteral.h, src/KB/KBRuleFunction.cc):
--   literals with the positions of their variables (`createSameVarsIndices`), and built-ins.
-- * Kb/Relation (src/KB/KBRelation.h, src/KB/KBRelation.cc): a relation as a record of its facts, the
--   extensional facts and the counters of inconsistent facts; `add_tuple`, `add_edb_tuple`, `finalize`,
--   `clear`, `clear_incons`, `add_incons` and `remove` are the methods of these names, from a relation
--   to the changed relation.
-- * Eval/Selection, Eval/Projection, Eval/Join (src/Eval/Selection.h, src/Eval/Projection.h,
--   src/Eval/JoinProjection.h, src/Eval/Join.h, src/Eval/Join.cc): what a literal asks of a fact, which
--   columns go into a result, and which columns of two tables must agree.
-- * Eval/Subgoal (src/Eval/EvalSubgoal.cc): one literal against the temporary table of the literals
--   before it, with Eval/Functions for built-ins. Its three merges are generic in the tables:
--   Eval/Merge without unknown, Eval/Unknown with unknown, Eval/Disjunction for disjuncts.
-- * Eval/Sort, Eval/Sort/Insertion (`sortRelation` of src/Eval/EvalSubgoal.cc): the interface of the
--   sort before a join, and a sort that meets it.
-- * Eval/Aggregate, Eval/Query (src/Evaluation.cc): aggregation of sorted results, and queries.
-- * Kb/Rule (src/KB/KBRule.h, src/KB/KBHeadLiteral.h, src/KB/KBRuleDisjunct.h): rules.
-- * Eval/Create (the end of src/Eval/EvalSubgoal.cc): which subgoal is made for a literal.
-- * Eval/Variables, Eval/Rule, Eval/Disjuncts (src/Eval/EvalRule.cc): the variables of a rule with their
--   counts; `make_conjunction` is the constructor of `EvaluateRuleWithoutDisjunction` and
--   `evaluate_conjunction` its call operator; `make_parts` and `evaluate_disjuncts` are those of
--   `EvalRuleWithDisj`; `evaluate_rule_on` is `CreateEvalRule` with a call of what it makes.
-- * Eval/LiteralOrder (src/Eval/RuleProcessing.cc, src/KB/KBRuleDisjunct.cc): the order of the literals
--   of a disjunct when it is made.
-- * Eval/Naive (src/NaiveEvaluation.cc, src/KB/KBModule.cc) and Eval/SemiNaive
--   (src/SemiNaiveEvaluation.cc): the passes over the rules of a module, which use a rule through the
--   interface `EvalRule` of src/Eval/EvalRule.h.
-- * Interning/Pool, Interning/Term, Interning/Mapper (src/DataPool.h, include/fovris/Term.h,
--   src/Term.cc, src/TermMapper.cc): the ids of terms. Interning/Integers has `int` and its casts.
-- * Api (include/fovris/Literal.h, RuleLiteral.h, Rule.h, Module.h and the like, src/RuleLiteral.cc,
--   src/GroundLiteral.cc): literals, rules, modules and queries as a user builds them, and the exceptions.
--   Api/Predicates (src/Pred/BinPredicateFunction.cc) has the built-in predicates, and Api/Order (src/Term.cc)
--   the comparisons of terms. Api/Dates (src/DateTime.cc) has the parsing and printing of dates, with
--   the calendar of include/fovris/date.h, `mktime` and the clock as parameters. Api/RawQuery
--   (src/Query.cc) reads a query from the tokens of a string.
-- * Store (src/KnowledgeBase.cc): `KnowledgeBaseImpl`, with its pools of names and its relations.
--   Store/Checks has the checks of terms and literals (`calcVarDiff` to `checkFact`), Store/Rules
--   `checkRuleLiteral`, `checkRule` and `validateModule`, Store/Types `makeTypeMap`, Store/Convert the
--   conversions to the internal forms (`convertRule` and what it calls), Store/Modules `addModule`,
--   `addRelation`, `addFact` and `addResultToKB`, and Store/Retrieve the way back (`retrieveModule`,
--   `convertKBRule`, `makeResultFact`) and `convertQuery`. A method that changes the knowledge base is an
--   `Action`, which gives back the knowledge base also where it throws; failed assertions and accesses
--   past the end are exceptions of their own.
-- * Prelude holds what the modules share, and Examples runs of the theorems.
--
-- State is passed explicitly. Iterators into sorted vectors are the lists that are left, and the
-- iterator before the current one (`curIt - 1`) is an argument of its own. Counters are `unsigned` and
-- wrap at 2 ^ 32. Code that throws returns a `Result`, or an `Option` where one exception is possible.
-- Merges recur on the two lists and need no fuel. The loops of the evaluations take fuel, and return
-- `none` where it runs out. Twice the number of terms times the number of relations is enough for a
-- generation of a module; the loops around it are not shown to end, and the other theorems about
-- generations speak of runs that return.
--
-- Not modelled: the sorting algorithms (`std::sort` and src/Eval/omp_mergesort.h, which is copied), of
-- which the parameter `Sorter` says that they permute and order a table by a strict weak order; the
-- sort of the literals of a body, which is the parameter `sort` of Eval/LiteralOrder; the OpenMP
-- branches, which fill the same tables; the index structure of boost::multi_index, for which a list with
-- unique terms stands; the arithmetic of `double`, which is a parameter with its equality; the conversion
-- of interned terms for built-ins, which is the parameter `query_term` of Eval/Functions; the exceptions of
-- predicates while rules are evaluated, where the parameter `builtin` is total; the assertions on
-- positions in src/Eval/JoinProjection.h; the texts of exceptions and the hashes of dates; the grammar and
-- the scanners; the methods of src/Program.cc, which pass their calls on; the printing of terms and
-- results, the command line and the server.
pub mod Prelude
pub mod Truth
pub mod Kb
pub mod Interning
pub mod Eval
pub mod Api
pub mod Store
pub mod Examples
