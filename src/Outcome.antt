-- ===== src/Outcome.antt =====
-- What a Rust function that may panic does: it returns, or it panics with a message.
use Prim.Native.String.{String}
use proof_systems.Prelude.{
  ℕ, zero, suc, List, [], ◌∷◌, ◌≡◌, refl, Bool, true, false, Option, none, some, ◌⊎◌, inl, inr,
}

pub data Outcome {ℓ} (A : Type ℓ) : Type ℓ where
  ok : A → Outcome A
  panic : String → Outcome A

infixl 5 ◌>>=◌ ◌>>◌
abbrev pub ◌>>=◌ {ℓ κ} : {A : Type ℓ} {B : Type κ} → Outcome A → (A → Outcome B) → Outcome B
ok a >>= f = f a
panic e >>= f = panic e

abbrev pub ◌>>◌ {ℓ} : {B : Type ℓ} → Outcome (Unit {0}) → Outcome B → Outcome B
m >> k = m >>= λ _. k

-- `o.expect(message)`
abbrev pub expect {ℓ} : {A : Type ℓ} → Option A → String → Outcome A
expect none e = panic e
expect (some a) e = ok a

-- `assert!(b)`
abbrev pub guard : Bool → String → Outcome (Unit {0})
guard true e = ok tt
guard false e = panic e

pub ok-injective {ℓ} : {A : Type ℓ} {a b : A} → ok a ≡ ok b → a ≡ b
ok-injective h = cc

pub bind_assoc {ℓ κ μ} :
    {A : Type ℓ} {B : Type κ} {C : Type μ} (m : Outcome A) (f : A → Outcome B) (g : B → Outcome C)
    → ((m >>= f) >>= g) ≡ (m >>= λ a. f a >>= g)
bind_assoc (ok a) f g = refl
bind_assoc (panic e) f g = refl

pub bind_congr {ℓ κ} :
    {A : Type ℓ} {B : Type κ} (m : Outcome A) (f g : A → Outcome B)
    → ((a : A) → f a ≡ g a)
    → (m >>= f) ≡ (m >>= g)
bind_congr m f g p = λ i. m >>= λ a. p a i

pub >>=-eq-ok {ℓ κ} :
    {A : Type ℓ} {B : Type κ} (m : Outcome A) (next : A → Outcome B) {y : B}
    → (m >>= next) ≡ ok y
    → (x : A) × (m ≡ ok x) × (next x ≡ ok y)
>>=-eq-ok (panic e) next run = cc
>>=-eq-ok (ok x) next run = (x, refl, run)

pub Outcome-cases {ℓ} :
    {A : Type ℓ} (m : Outcome A) → ((a : A) × (m ≡ ok a)) ⊎ ((e : String) × (m ≡ panic e))
Outcome-cases (ok a) = inl (a, refl)
Outcome-cases (panic e) = inr (e, refl)

-- The values of a function that may panic at `n` numbers from `i` on
unfoldable pub build : {A : Type 0} → ℕ → ℕ → (ℕ → Outcome A) → Outcome (List A)
build zero i g = ok []
build (suc n) i g = do x ← g i; xs ← build n (suc i) g; ok (x ∷ xs)
