-- ===== src/Kb/Tuple.antt =====
-- src/KB/KBTuple.h: the terms of a fact and its truth value.
use fovris.Truth.{TruthValue}
use fovris.Kb.Term.{Terms}

pub record KbTuple : Type 0 where
  pub terms : Terms
  pub value : TruthValue
