-- ===== src/Kimchi/Alphas.antt =====
-- kimchi/src/alphas.rs: powers of alpha, by kind of argument. An iterator is the list of what it
-- still gives; the hash map is a function from argument types.
pub mod Ranges
pub mod Powers
use proof_systems.Prelude.{
  ℕ, zero, suc, ◌+◌, ◌-◌, ◌%◌, ◌^◌, Bool, true, false, Option, none, some, List, [], ◌∷◌, ◌++◌, ltb,
  take, drop, if◌then◌else◌,
}
use proof_systems.Outcome.{Outcome, ok, panic, ◌>>=◌, ◌>>◌, expect, guard}
use proof_systems.Field.{Field, ◌⊗◌}
use proof_systems.Kimchi.Gates.{GateType, ArgumentType, gate, permutation, lookup, same_type}

abbrev pub Mapping : Type 0
Mapping = ArgumentType → Option (ℕ × ℕ)

pub record Alphas (F : Type 0) : Type 0 where
  pub next_power : ℕ
  pub mapping : Mapping
  pub alphas : Option (List F)

abbrev pub is_some {ℓ} : {A : Type ℓ} → Option A → Bool
is_some none = false
is_some (some a) = true

-- `mapping.insert(ty, range)`
abbrev pub insert : ArgumentType → ℕ × ℕ → Mapping → Mapping
insert ty range m t = if same_type ty t then some range else m t

-- All gates share the powers that are registered for the zero gate.
abbrev pub canonical : ArgumentType → ArgumentType
canonical (gate g) = gate GateType.zero
canonical permutation = permutation
canonical lookup = lookup

-- `u32::checked_add`
abbrev pub checked_add : ℕ → ℕ → Option ℕ
checked_add a b = if ltb (a + b) (2 ^ 32) then some (a + b) else none

-- The numbers from `start`, `count` of them.
abbrev pub range : ℕ → ℕ → List ℕ
range start zero = []
range start (suc count) = start ∷ range (start + 1) count

module _ {F : Type 0} where
  -- `Alphas::default()`
  unfoldable pub default : Alphas F
  default = record { next_power = 0; mapping = λ t. none; alphas = none }

  unfoldable pub register : Alphas F → ArgumentType → ℕ → Outcome (Alphas F)
  register a ty powers =
      if is_some a.alphas
      then panic "you cannot register new constraints once initialized with a field element"
      else if is_some (a.mapping (canonical ty))
      then panic "cannot re-register"
      else (do
        next ← expect (checked_add a.next_power powers) "too many powers of alphas were registered"
        ok (record a {
          mapping = insert (canonical ty) (a.next_power, powers) a.mapping;
          next_power = next;
        }))

  -- `self.mapping.get(&ty)` and the test of `num`, common to the two getters.
  unfoldable pub registered : Alphas F → ArgumentType → ℕ → Outcome ℕ
  registered a ty num = do
    (start, count) ← expect (a.mapping (canonical ty)) "constraint was not registered"
    guard (if ltb count num then false else true) "you asked for more than were registered"
    ok start

  unfoldable pub get_exponents : Alphas F → ArgumentType → ℕ → Outcome (List ℕ)
  get_exponents a ty num = do
    start ← registered a ty num
    ok (range start ((start + num) % 2 ^ 32 - start))

  unfoldable pub get_alphas : Alphas F → ArgumentType → ℕ → Outcome (List F)
  get_alphas a ty num = do
    start ← registered a ty num
    alphas ← expect a.alphas "you must call instantiate with an actual field element first"
    ok (take num (drop start alphas))

module _ {F : Type 0} ⦃f : Field F⦄ where
  -- `for _ in 1..next_power { last_power *= alpha; alphas.push(last_power); }`
  unfoldable pub push_powers : ℕ → F → F → List F → List F
  push_powers zero alpha last_power alphas = alphas
  push_powers (suc rounds) alpha last_power alphas =
      push_powers rounds alpha (last_power ⊗ alpha) (alphas ++ last_power ⊗ alpha ∷ [])

  unfoldable pub instantiate : Alphas F → F → Alphas F
  instantiate a alpha = record a {
    alphas = some (push_powers (a.next_power - 1) alpha f.one (f.one ∷ []));
  }

-- `MustConsumeIterator`: `next`, and `drop`, which panics on an iterator that is not used up.
unfoldable pub next : {A : Type 0} → List A → Option A × List A
next [] = (none, [])
next (x ∷ xs) = (some x, xs)

unfoldable pub drop_iterator : {A : Type 0} → List A → Outcome (Unit {0})
drop_iterator xs = elim (next xs).0 [
  | none ↦ ok tt
  | some x ↦ panic "the registered number of powers of alpha is too large"
]
