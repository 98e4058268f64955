-- ===== src/Bridging/Tokens/Choice.antt =====
-- The token that is chosen, whichever way the sort orders equal priorities.
use mathlib.Core.List.{Perm}
use mathlib.Core.List.Perm
use mathlib.Core.Logic.Or
use cow_rs.Base.{ℕ, List}
use cow_rs.Base.Bytes.{Bytes}
use cow_rs.Bridging.Tokens.{Scored, UnstableSort, token_priority}

module _ (u : UnstableSort) (chain : ℕ) (source : Bytes) (correlated : List Bytes) where
  abbrev priority : Bytes → ℕ
  priority a = token_priority chain source correlated a

  abbrev scored : Bytes → Scored
  scored a = (a, priority a)
