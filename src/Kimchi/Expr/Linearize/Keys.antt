-- ===== src/Kimchi/Expr/Linearize/Keys.antt =====
-- kimchi/src/circuits/expr.rs: the equality and the order that are derived for columns and variables.
use proof_systems.Prelude.{ℕ, ◌==◌, ltb, Bool, ◌||◌, ◌&&◌, List, [], ◌∷◌, if◌then◌else◌}
use native.Mathlib.Decide.{ℕ_discrete}
use proof_systems.Kimchi.Gates.{GateType, discriminant}
use proof_systems.Kimchi.Expr.Columns.{
  LookupPattern, cha_cha, cha_cha_final, lookup_gate, range_check_gate, Column, CurrOrNext,
  Variable, shift,
}

unfoldable pub GateType-discrete : Discrete GateType
GateType-discrete = hlevel

unfoldable pub LookupPattern-discrete : Discrete LookupPattern
LookupPattern-discrete = hlevel

unfoldable pub CurrOrNext-discrete : Discrete CurrOrNext
CurrOrNext-discrete = hlevel

unfoldable pub Column-discrete : Discrete Column
Column-discrete = hlevel (ℕ_discrete, GateType-discrete, LookupPattern-discrete)

unfoldable pub Variable-discrete : Discrete Variable
Variable-discrete = hlevel (Column-discrete, CurrOrNext-discrete)

unfoldable pub Variables-discrete : Discrete (List Variable)
Variables-discrete = hlevel (Variable-discrete)

abbrev pattern_rank : LookupPattern → ℕ
pattern_rank cha_cha = 0
pattern_rank cha_cha_final = 1
pattern_rank lookup_gate = 2
pattern_rank range_check_gate = 3

-- The place of the constructor, and its argument
abbrev column_rank : Column → ℕ × ℕ
column_rank (Column.witness i) = (0, i)
column_rank Column.z = (1, 0)
column_rank (Column.lookup_sorted i) = (2, i)
column_rank Column.lookup_aggreg = (3, 0)
column_rank Column.lookup_table = (4, 0)
column_rank (Column.lookup_kind_index p) = (5, pattern_rank p)
column_rank Column.lookup_runtime_selector = (6, 0)
column_rank Column.lookup_runtime_table = (7, 0)
column_rank (Column.index g) = (8, discriminant g)
column_rank (Column.coefficient i) = (9, i)

-- The derived order: by the column, and then by the row
unfoldable pub precedes : Variable → Variable → Bool
precedes v w =
    (let (a, i) = column_rank v.col in
      let (b, j) = column_rank w.col in
      ltb a b || a == b && (ltb i j || i == j && ltb (shift v.row) (shift w.row)))

unfoldable pub insert : Variable → List Variable → List Variable
insert v [] = v ∷ []
insert v (w ∷ vs) = if precedes w v then w ∷ insert v vs else v ∷ w ∷ vs

-- `m.sort()`
unfoldable pub sort : List Variable → List Variable
sort [] = []
sort (v ∷ vs) = insert v (sort vs)
