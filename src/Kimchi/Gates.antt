-- ===== src/Kimchi/Gates.antt =====
-- kimchi/src/circuits/gate.rs, argument.rs and macros.rs: the kinds of gates and of arguments, and what
-- the verification of a gate returns.
use Prim.Native.String.{String}
use proof_systems.Outcome.{Outcome, ok}
use proof_systems.Prelude.{ℕ, ◌≡◌, refl, Bool, true, false, ◌==◌, List, if◌then◌else◌}

pub data GateType : Type 0 where
  zero generic poseidon complete_add var_base_mul endo_mul endo_mul_scalar : GateType
  cha_cha0 cha_cha1 cha_cha2 cha_cha_final lookup : GateType
  cairo_claim cairo_instruction cairo_flags cairo_transition : GateType
  range_check0 range_check1 : GateType

-- The discriminants of the enumeration.
abbrev pub discriminant : GateType → ℕ
discriminant zero = 0
discriminant generic = 1
discriminant poseidon = 2
discriminant complete_add = 3
discriminant var_base_mul = 4
discriminant endo_mul = 5
discriminant endo_mul_scalar = 6
discriminant cha_cha0 = 7
discriminant cha_cha1 = 8
discriminant cha_cha2 = 9
discriminant cha_cha_final = 10
discriminant lookup = 11
discriminant cairo_claim = 12
discriminant cairo_instruction = 13
discriminant cairo_flags = 14
discriminant cairo_transition = 15
discriminant range_check0 = 16
discriminant range_check1 = 17

pub data ArgumentType : Type 0 where
  gate : GateType → ArgumentType
  permutation : ArgumentType
  lookup : ArgumentType

-- `==` on argument types
abbrev pub same_type : ArgumentType → ArgumentType → Bool
same_type (gate g) (gate h) = discriminant g == discriminant h
same_type permutation permutation = true
same_type lookup lookup = true
same_type _ _ = false

-- `Result<(), String>` of the `verify` functions
pub data GateResult : Type 0 where
  valid : GateResult
  invalid : String → GateResult

-- `ensure_eq!`, which returns early
unfoldable pub ensure : Bool → String → Outcome GateResult → Outcome GateResult
ensure b e next = if b then next else ok (invalid e)

pub ensure-valid :
    (b : Bool) (e : String) (next : Outcome GateResult)
    → ensure b e next ≡ ok valid
    → (b ≡ true) × (next ≡ ok valid)
unfolding ensure
ensure-valid true e next h = (refl, h)
ensure-valid false e next h = cc

-- The columns of a witness, by their numbers.
abbrev pub Columns : Type 0 → Type 0
Columns F = ℕ → List F
