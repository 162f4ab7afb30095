-- ===== src/Kimchi/Expr/Columns.antt =====
-- The columns of kimchi/src/circuits/expr.rs, the evaluations of kimchi/src/proof.rs, and the value
-- of a variable. `Attempt` is a `Result` of code that may panic, without the message of the panic.
use proof_systems.Prelude.{ℕ, ◌≡◌, refl, Option, none, some, List, get_elem?}
use proof_systems.Kimchi.Gates.{GateType}

pub data CurrOrNext : Type 0 where
  curr next : CurrOrNext

abbrev pub shift : CurrOrNext → ℕ
shift curr = 0
shift next = 1

pub data LookupPattern : Type 0 where
  cha_cha cha_cha_final lookup_gate range_check_gate : LookupPattern

pub data Column : Type 0 where
  witness : ℕ → Column
  z : Column
  lookup_sorted : ℕ → Column
  lookup_aggreg lookup_table : Column
  lookup_kind_index : LookupPattern → Column
  lookup_runtime_selector lookup_runtime_table : Column
  index : GateType → Column
  coefficient : ℕ → Column

pub record Variable : Type 0 where
  pub col : Column
  pub row : CurrOrNext

pub data ExprError : Type 0 where
  empty_stack lookup_should_not_be_used : ExprError
  missing_evaluation : Column → CurrOrNext → ExprError
  missing_index_evaluation : Column → ExprError
  failed_linearization missing_runtime : ExprError

-- An `i32`: `negsuc n` is `-(n + 1)`.
pub data ℤ : Type 0 where
  pos negsuc : ℕ → ℤ

pub data Attempt (A : Type 0) : Type 0 where
  ok : A → Attempt A
  err : ExprError → Attempt A
  panic : Attempt A

infixl 5 ◌>>=◌ ◌>>◌
abbrev pub ◌>>=◌ : {A B : Type 0} → Attempt A → (A → Attempt B) → Attempt B
ok x >>= k = k x
err e >>= k = err e
panic >>= k = panic

abbrev pub ◌>>◌ : {B : Type 0} → Attempt (Unit {0}) → Attempt B → Attempt B
first >> second = first >>= λ _. second

-- A value that the code takes out of an option or reads at an index, or else a panic.
abbrev pub unwrap : {A : Type 0} → Option A → Attempt A
unwrap (some x) = ok x
unwrap none = panic

-- `o.ok_or(e)`
abbrev pub ok_or : {A : Type 0} → Option A → ExprError → Attempt A
ok_or (some x) e = ok x
ok_or none e = err e

pub record LookupEvaluations (F : Type 0) : Type 0 where
  pub sorted : List F
  pub aggreg : F
  pub table : F
  pub runtime : Option F

pub record ProofEvaluations (F : Type 0) : Type 0 where
  pub w : List F
  pub z : F
  pub s : List F
  pub lookup : Option (LookupEvaluations F)
  pub generic_selector : F
  pub poseidon_selector : F

module _ {F : Type 0} where
  -- `evals.lookup`, or else the error of its absence.
  abbrev lookups : ProofEvaluations F → Attempt (LookupEvaluations F)
  lookups e = ok_or e.lookup lookup_should_not_be_used

  -- The match on the column.
  unfoldable pub evaluate_column : ProofEvaluations F → Column → Attempt F
  evaluate_column e (witness i) = unwrap (get_elem? e.w i)
  evaluate_column e z = ok e.z
  evaluate_column e (lookup_sorted i) = do l ← lookups e; unwrap (get_elem? l.sorted i)
  evaluate_column e lookup_aggreg = do l ← lookups e; ok l.aggreg
  evaluate_column e lookup_table = do l ← lookups e; ok l.table
  evaluate_column e lookup_runtime_table = do l ← lookups e; ok_or l.runtime missing_runtime
  evaluate_column e (index GateType.poseidon) = ok e.poseidon_selector
  evaluate_column e (index GateType.generic) = ok e.generic_selector
  evaluate_column e (coefficient i) = err (missing_index_evaluation (coefficient i))
  evaluate_column e (lookup_kind_index p) = err (missing_index_evaluation (lookup_kind_index p))
  evaluate_column e lookup_runtime_selector = err (missing_index_evaluation lookup_runtime_selector)
  evaluate_column e (index g) = err (missing_index_evaluation (index g))

  -- `Variable::evaluate`
  unfoldable pub evaluate_variable : List (ProofEvaluations F) → Variable → Attempt F
  evaluate_variable evals v = do e ← unwrap (get_elem? evals (shift v.row)); evaluate_column e v.col

-- A step that returned.
pub >>=-eq-ok :
    {A B : Type 0} (m : Attempt A) (k : A → Attempt B) {y : B}
    → (m >>= k) ≡ ok y
    → (x : A) × (m ≡ ok x) × (k x ≡ ok y)
>>=-eq-ok (ok x) k h = (x, refl, h)
>>=-eq-ok (err e) k h = cc
>>=-eq-ok panic k h = cc

pub ok-injective : {A : Type 0} {a b : A} → ok a ≡ ok b → a ≡ b
ok-injective h = cc
