-- ===== src/Eval/Projection.antt =====
-- src/Eval/Projection.h and src/Eval/JoinProjection.h: which columns of the joined facts make up the
-- result. Both work on ground terms and, for the literal of the result, on the terms of literals:
-- `of_const` makes a term of a value, `null?` is `isNull`, and `d` is read past the end, where `project`
-- asserts and the complements read past an array; on facts of the literals' arities no position is past
-- the end. The assertions of `leftComplement` and `righComplement`, which compare the position in the source
-- with the number of columns of the result, are left out.
pub mod Instance
pub mod Result
pub mod Present
use fovris.Prelude.{
  ℕ, Bool, true, false, if◌then◌else◌, List, [], ◌∷◌, Option, none, some, map, get_or,
}
use fovris.Kb.Term.{KbTerm, Terms, null_val, is_null}
use fovris.Kb.Literal.{KbLiteral, VarIndices, lookup, var_indices}

-- `Projection::ProjectionId`
pub data ColumnId : Type 0 where
  var : ℕ → ColumnId
  constant : ℕ → ColumnId

-- `Projection::makeProjectionIds`: a variable that the literal lacks gets no column.
column_ids : VarIndices → List KbTerm → List ColumnId
column_ids m [] = []
column_ids m (t ∷ dest) =
    let rest = column_ids m dest in
    if t.is_var
    then elim (lookup t.val m) [ some is ↦ var (get_or is 0 0) ∷ rest | none ↦ rest ]
    else constant t.val ∷ rest

unfoldable pub projection : KbLiteral → List KbTerm → List ColumnId
unfolding column_ids var_indices
projection source dest = column_ids (var_indices source) dest

-- `JoinProjection::ProjectionId`
pub data JoinColumnId : Type 0 where
  constant left right : ℕ → JoinColumnId
  both : ℕ → ℕ → JoinColumnId

-- `JoinProjection::makeProjectionIds` at a variable with its positions in the two literals.
var_ids : Option (List ℕ) → Option (List ℕ) → List JoinColumnId
var_ids (some is) none = left (get_or is 0 0) ∷ []
var_ids none (some js) = right (get_or js 0 0) ∷ []
var_ids (some is) (some js) = both (get_or is 0 0) (get_or js 0 0) ∷ []
var_ids none none = []

join_column_ids : VarIndices → VarIndices → List KbTerm → List JoinColumnId
join_column_ids m n [] = []
join_column_ids m n (t ∷ dest) =
    let rest = join_column_ids m n dest in
    if t.is_var
    then elim (var_ids (lookup t.val m) (lookup t.val n)) [ [] ↦ rest | id ∷ _ ↦ id ∷ rest ]
    else JoinColumnId.constant t.val ∷ rest

unfoldable pub join_projection : KbLiteral → KbLiteral → List KbTerm → List JoinColumnId
unfolding join_column_ids var_ids var_indices
join_projection l r dest = join_column_ids (var_indices l) (var_indices r) dest

module _ {T : Type 0} (of_const : ℕ → T) (null? : T → Bool) (d : T) where
  -- The body of `Projection::project`.
  abbrev pub column_value : List T → ColumnId → T
  column_value terms (constant c) = of_const c
  column_value terms (var i) = get_or terms i d

  -- The body of `JoinProjection::project`.
  abbrev pub join_column_value : List T → List T → JoinColumnId → T
  join_column_value ls rs (constant c) = of_const c
  join_column_value ls rs (left i) = get_or ls i d
  join_column_value ls rs (right i) = get_or rs i d
  join_column_value ls rs (both i j) =
      if null? (get_or ls i d) then get_or rs j d else get_or ls i d

  -- The body of `leftComplement`.
  abbrev pub left_value : List T → JoinColumnId → T
  left_value terms (constant c) = of_const c
  left_value terms (left i) = get_or terms i d
  left_value terms (both i j) = get_or terms i d
  left_value terms (right i) = of_const null_val

  -- The body of `righComplement`: at a common variable it reads `idOrConstant`, which shares its
  -- place in the union with the position in the left literal.
  abbrev pub right_value : List T → JoinColumnId → T
  right_value terms (constant c) = of_const c
  right_value terms (right i) = get_or terms i d
  right_value terms (both i j) = get_or terms i d
  right_value terms (left i) = of_const null_val

abbrev ground : ℕ → ℕ
ground c = c

unfoldable pub project : List ColumnId → Terms → Terms
project ids terms = map (column_value ground is_null 0 terms) ids

unfoldable pub join_project : List JoinColumnId → Terms → Terms → Terms
join_project ids ls rs = map (join_column_value ground is_null 0 ls rs) ids

unfoldable pub left_complement : List JoinColumnId → Terms → Terms
left_complement ids terms = map (left_value ground is_null 0 terms) ids

unfoldable pub righ_complement : List JoinColumnId → Terms → Terms
righ_complement ids terms = map (right_value ground is_null 0 terms) ids

-- `KBTerm(unsigned)` and the default `KBTerm()`.
abbrev kb_const : ℕ → KbTerm
kb_const c = record { val = c; is_var = false }

abbrev kb_null : KbTerm → Bool
kb_null t = is_null t.val

unfoldable pub project_terms : List ColumnId → List KbTerm → List KbTerm
project_terms ids terms = map (column_value kb_const kb_null (kb_const 0xDEADBEEF) terms) ids

unfoldable pub join_project_terms : List JoinColumnId → List KbTerm → List KbTerm → List KbTerm
join_project_terms ids ls rs =
    map (join_column_value kb_const kb_null (kb_const 0xDEADBEEF) ls rs) ids
