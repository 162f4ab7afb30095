-- ===== src/Field/Residue.antt =====
-- Residues modulo `suc q`, an implementation of the field interface, on which the tests run.
use native.Mathlib.Nat.{mod-lt, mod-eq_of_lt, mod-add-mod, add-mod-mod, add-mod_right}
use native.Mathlib.Nat.{add-mul-mod_self_left, div-add-mod, mul_comm, mul_assoc, pow-suc}
use native.Mathlib.Nat.{add-mod, mul-add, zero-mul, one-mul}
use native.Mathlib.Bridge.{le_prop}
use mathlib.Core.HLevel.{Σ_prop_path}
use proof_systems.Prelude.{
  false, ℕ, zero, suc, ◌+◌, ◌-◌, ◌*◌, ◌/◌, ◌%◌, ◌^◌, ◌≤◌, ◌<◌, ◌≡◌, refl, sym, ap, ◌∙◌, ◌≡⟨◌⟩◌, ◌∎,
  ◌&&◌, true, if◌then◌else◌, Option, none, some, List, [], ◌∷◌, arith, leb, ◌==◌, ==_iff, ltb,
  lt→ltb, length,
}
use proof_systems.Field.{Field, IsRing, IsCanonical, IsRepr, le_bytes}

abbrev pub Residue : ℕ → Type 0
Residue q = (n : ℕ) × (n < suc q)

mul-mod_left_mod : (a b m : ℕ) → (a % m) * b % m ≡ a * b % m
mul-mod_left_mod a b m =
    (a % m) * b % m
    ≡⟨ sym (add-mul-mod_self_left ((a % m) * b) m (a / m * b)) ⟩ ((a % m) * b + m * (a / m * b)) % m
    ≡⟨ ap (λ t. t % m)
        (let split : m * (a / m) + a % m ≡ a = div-add-mod a m in
          omega (arith, ap (λ (t : ℕ). t * b) split)) ⟩
      a * b % m ∎

mul-mod_right_mod : (a b m : ℕ) → a * (b % m) % m ≡ a * b % m
mul-mod_right_mod a b m =
    ap (λ t. t % m) (mul_comm a (b % m)) ∙ mul-mod_left_mod b a m ∙ ap (λ t. t % m) (mul_comm b a)

-- The integer that little-endian bytes stand for.
of_le_bytes : List ℕ → ℕ
of_le_bytes [] = 0
of_le_bytes (b ∷ bs) = b + 256 * of_le_bytes bs

of_le_bytes-le_bytes : (n v : ℕ) → v < 256 ^ n → of_le_bytes (le_bytes n v) ≡ v
unfolding of_le_bytes le_bytes
of_le_bytes-le_bytes zero v h = omega arith
of_le_bytes-le_bytes (suc n) v h =
    let h' : v < 256 ^ n * 256 = rw (pow-suc) at h in
    let small : v / 256 < 256 ^ n = omega arith in
    omega (arith, of_le_bytes-le_bytes n (v / 256) small)

length-le_bytes : (n v : ℕ) → length (le_bytes n v) ≡ n
unfolding le_bytes
length-le_bytes zero v = refl
length-le_bytes (suc n) v = ap suc (length-le_bytes n (v / 256))

module _ (q : ℕ) where
  unfoldable pub residue : ℕ → Residue q
  residue n = (n % suc q, mod-lt n (omega arith))

  residue_path : {a b : Residue q} → a.0 ≡ b.0 → a ≡ b
  residue_path p = Σ_prop_path (λ n. le_prop) p

  around : (a b n : ℕ) → n ≡ a + suc q → a < suc q → n % suc q ≡ a
  around a b n e h = ap (λ t. t % suc q) e ∙ add-mod_right a (suc q) ∙ mod-eq_of_lt h

  read : ℕ → List ℕ → Option (Residue q)
  unfolding residue
  read size bs =
      if length bs == size && ltb (of_le_bytes bs) (suc q)
      then some (residue (of_le_bytes bs))
      else none

  read-le_bytes :
      (size : ℕ) → suc q ≤ 256 ^ size → (a : Residue q) → read size (le_bytes size a.0) ≡ some a
  unfolding read
  read-le_bytes size m a =
      let e : of_le_bytes (le_bytes size a.0) ≡ a.0 =
        of_le_bytes-le_bytes size a.0 (let h = a.1 in omega arith) in
      let l : (length (le_bytes size a.0) == size) ≡ true =
        (==_iff _ _).1 (length-le_bytes size a.0) in
      let t : ltb a.0 (suc q) ≡ true = lt→ltb _ _ a.1 in
      rw (read, e, l, t) (ap {B = Option (Residue q)} some (residue_path (mod-eq_of_lt a.1)))

  power : Residue q → ℕ → Residue q
  unfolding residue
  power a zero = residue 1
  power a (suc n) = residue ((power a n).0 * a.0)

  -- `a ^ n`, by squaring.
  square_multiply : ℕ → Residue q → ℕ → Residue q → Residue q
  unfolding residue
  square_multiply zero a n acc = acc
  square_multiply (suc fuel) a n acc =
      let next = if n % 2 == 1 then residue (acc.0 * a.0) else acc in
      square_multiply fuel (residue (a.0 * a.0)) (n / 2) next

  -- By Fermat's theorem, where `suc q` is a prime below 2 ^ 256.
  inverse : Residue q → Option (Residue q)
  unfolding square_multiply residue
  inverse a = if a.0 == 0 then none else some (square_multiply 256 a (q - 1) (residue 1))

  unfoldable pub residues : ℕ → Field (Residue q)
  unfolding read power of_le_bytes le_bytes inverse square_multiply
  residues size = record {
    zero = residue 0;
    one = residue 1;
    add = λ a b. residue (a.0 + b.0);
    sub = λ a b. residue (a.0 + (suc q - b.0));
    mul = λ a b. residue (a.0 * b.0);
    neg = λ a. residue (suc q - a.0);
    inverse = inverse;
    pow = power;
    from_ℕ = residue;
    beq = λ a b. a.0 == b.0;
    ble = λ a b. leb a.0 b.0;
    serialize = λ a. le_bytes size a.0;
    deserialize = read size;
    into_repr = λ a. a.0;
    from_repr = λ n. if ltb n (suc q) then some (residue n) else none;
  }

  pub residues-IsRing : (size : ℕ) → IsRing (residues size)
  unfolding residues
  residues-IsRing size = record {
    add_assoc = λ a b c. residue_path (
        mod-add-mod _ _ _
        ∙ ap (λ t. t % suc q) {x = a.0 + b.0 + c.0} (omega arith)
        ∙ sym (add-mod-mod _ _ _));
    add_comm = λ a b. residue_path (ap (λ t. t % suc q) {x = a.0 + b.0} (omega arith));
    zero-add = λ a.
        residue_path
          (mod-add-mod _ _ _ ∙ ap (λ t. t % suc q) {x = 0 + a.0} (omega arith) ∙ mod-eq_of_lt a.1);
    neg-eq-sub = λ a.
        residue_path
          (ap (λ t. t % suc q) {y = 0 + (suc q - a.0)} (omega arith) ∙ sym (mod-add-mod _ _ _));
    sub-add =
        λ a b. residue_path (mod-add-mod _ _ _ ∙ around a.0 b.0 _ (let h = b.1 in omega arith) a.1);
    add-sub =
        λ a b. residue_path (mod-add-mod _ _ _ ∙ around a.0 b.0 _ (let h = b.1 in omega arith) a.1);
    mul_assoc = λ a b c. residue_path (
        mul-mod_left_mod _ _ _
        ∙ ap (λ t. t % suc q) (mul_assoc a.0 b.0 c.0)
        ∙ sym (mul-mod_right_mod _ _ _));
    mul_comm = λ a b. residue_path (ap (λ t. t % suc q) (mul_comm a.0 b.0));
    one-mul = λ a.
        residue_path
          (mul-mod_left_mod 1 _ _ ∙ ap (λ t. t % suc q) (one-mul a.0) ∙ mod-eq_of_lt a.1);
    zero-mul = λ a. residue_path (mul-mod_left_mod 0 _ _ ∙ ap (λ t. t % suc q) (zero-mul a.0));
    mul-add = λ a b c.
        residue_path
          (mul-mod_right_mod _ _ _ ∙ ap (λ t. t % suc q) (mul-add a.0 b.0 c.0) ∙ add-mod _ _ _);
    pow-zero = λ a. refl;
    pow-suc = λ a n. refl;
    from-one = refl;
    from-add = λ m n. residue_path (add-mod m n (suc q));
    beq_iff = λ a b. (λ e. residue_path ((==_iff _ _).0 e), λ e. (==_iff _ _).1 (ap (λ r. r.0) e));
  }

  pub residues-IsCanonical :
      (size : ℕ) → 8 ≤ size → 2 ^ 64 ≤ suc q → suc q ≤ 256 ^ size → IsCanonical (residues size)
  unfolding residues
  residues-IsCanonical size h w m = record {
    value = λ a. a.0;
    modulus = suc q;
    size = size;
    eight-le-size = h;
    value-lt = λ a. a.1;
    modulus-le = m;
    value_injective = λ a b. residue_path;
    value-from = λ n l. mod-eq_of_lt (omega arith);
    serialize_lem = λ a. refl;
    deserialize-serialize = λ a. read-le_bytes size m a;
  }

  pub size-residues-IsCanonical :
      (size : ℕ) (h : 8 ≤ size) (w : 2 ^ 64 ≤ suc q) (m : suc q ≤ 256 ^ size)
      → (residues-IsCanonical size h w m).size ≡ size
  unfolding residues-IsCanonical
  size-residues-IsCanonical size h w m = refl

  pub modulus-residues-IsCanonical :
      (size : ℕ) (h : 8 ≤ size) (w : 2 ^ 64 ≤ suc q) (m : suc q ≤ 256 ^ size)
      → (residues-IsCanonical size h w m).modulus ≡ suc q
  unfolding residues-IsCanonical
  modulus-residues-IsCanonical size h w m = refl

  pub residues-IsRepr :
      (size : ℕ) (h : 8 ≤ size) (w : 2 ^ 64 ≤ suc q) (m : suc q ≤ 256 ^ size)
      → suc q % 2 ≡ 1
      → IsRepr (residues-IsCanonical size h w m)
  unfolding residues residue residues-IsCanonical
  residues-IsRepr size h w m odd = record {
    into_repr_lem = λ a. refl;
    from-value = λ a. residue_path (mod-eq_of_lt a.1);
    from_repr-some = λ n l. (residue n, rw (lt→ltb n (suc q) l) refl, mod-eq_of_lt l);
    from_repr-none = λ n l. rw (let e : ltb n (suc q) ≡ false = ground arith in e) refl;
    modulus_odd = odd;
    value-neg =
        λ a pos. ap (λ t. t + a.0) (mod-eq_of_lt (omega arith)) ∙ (let l = a.1 in omega arith);
  }
