-- ===== src/Examples.antt =====
-- Runs of the theorems at concrete literals, facts and relations, which the modules below share.
mod Relations
mod Joins
mod Answers
mod Evaluations
mod Rules
mod Interned
mod Stores
mod Compared
mod Dates
mod Queries
mod Passes
use fovris.Prelude.{ℕ, Bool, true, false, List, [], ◌∷◌}
use fovris.Truth.{TruthValue}
use fovris.Truth.Set.{TruthValueSet, of_values}
use fovris.Kb.Term.{KbTerm, Terms}
use fovris.Kb.Tuple.{KbTuple}
use fovris.Kb.Literal.{KbLiteral}
use fovris.Kb.Relation.{FactsPool, KbRelation}

abbrev pub variable : ℕ → KbTerm
variable n = record { val = n; is_var = true }

abbrev pub value : ℕ → KbTerm
value n = record { val = n; is_var = false }

abbrev pub fact : Terms → TruthValue → KbTuple
fact ts v = record { terms = ts; value = v }

abbrev pub true_or_incons : TruthValueSet
true_or_incons = of_values (TruthValue.true ∷ TruthValue.incons ∷ [])

abbrev pub only_unknown : TruthValueSet
only_unknown = of_values (TruthValue.unknown ∷ [])

-- The temporary table p(X, Y).
abbrev pub table_p : KbLiteral
table_p = record {
  rel_id = 0xDEADBEEF;
  terms = variable 0 ∷ variable 1 ∷ [];
  logic_set = true_or_incons;
}

-- The literal q(Y, 7) in {true, incons}.
abbrev pub literal_q : KbLiteral
literal_q = record { rel_id = 1; terms = variable 1 ∷ value 7 ∷ []; logic_set = true_or_incons }

-- The literal q(Y, 7) in {unknown}.
abbrev pub literal_q_unknown : KbLiteral
literal_q_unknown = record {
  rel_id = 1;
  terms = variable 1 ∷ value 7 ∷ [];
  logic_set = only_unknown;
}

-- The terms (X, 9, Y) of a head.
abbrev pub head_terms : List KbTerm
head_terms = variable 0 ∷ value 9 ∷ variable 1 ∷ []

abbrev pub tuples_p : List KbTuple
tuples_p =
    fact (3 ∷ 5 ∷ []) TruthValue.true
    ∷ fact (2 ∷ 4 ∷ []) TruthValue.incons
    ∷ fact (1 ∷ 5 ∷ []) TruthValue.true
    ∷ []

abbrev pub facts_q : FactsPool
facts_q =
    fact (5 ∷ 7 ∷ []) TruthValue.incons
    ∷ fact (4 ∷ 8 ∷ []) TruthValue.true
    ∷ fact (6 ∷ 7 ∷ []) TruthValue.unknown
    ∷ []

abbrev pub relation_q : KbRelation
relation_q = record {
  facts = facts_q;
  edb_facts = fact (4 ∷ 8 ∷ []) TruthValue.true ∷ [];
  incons_facts_number = 1;
  edb_incons_facts_number = 0;
  finalized = false;
}
