-- ===== src/Cairo/Memory/Cells.antt =====
-- cairo/src/memory.rs: the memory as its clients see it, a content for each address.
use mathlib.Core.Option
use proof_systems.Prelude.{
  ℕ, zero, suc, ◌+◌, ◌-◌, ◌<◌, ◌≡◌, refl, ap, ◌∙◌, Option, none, some, List, [], ◌∷◌, ◌++◌, arith,
  length, get_elem?, set, replicate, leb, ◌==◌, lt→ltb, if◌then◌else◌, length-append,
  length-replicate, length-set, get_elem?-set_self, get_elem?-set_ne, get_elem?-lt_length,
  Bool-cases, inl, inr, ◌≢◌, ==_iff,
}
use Prim.Native.Nat.{max}
use proof_systems.Outcome.{ok}
use proof_systems.Field.{Field}
use proof_systems.Cairo.Helper.{to_u64}
use proof_systems.Cairo.Word.{CairoWord}
use proof_systems.Cairo.Memory.{CairoMemory, len, resize, index, write, read}

abbrev flatten {ℓ} : {A : Type ℓ} → Option (Option A) → Option A
flatten none = none
flatten (some x) = x

flatten-append_replicate :
    {A : Type 0} (xs : List (Option A)) (n j : ℕ)
    → flatten (get_elem? (xs ++ replicate n none) j) ≡ flatten (get_elem? xs j)
flatten-append_replicate [] zero j = refl
flatten-append_replicate [] (suc n) zero = refl
flatten-append_replicate [] (suc n) (suc j) = flatten-append_replicate [] n j
flatten-append_replicate (x ∷ xs) n zero = refl
flatten-append_replicate (x ∷ xs) n (suc j) = flatten-append_replicate xs n j

module _ {F : Type 0} where
  -- The content of an address: absent for a cell not written, or past the end.
  unfoldable pub cell : CairoMemory F → ℕ → Option F
  cell m j = Option.map (λ w. w.word) (flatten (get_elem? m.cells j))

  -- `resize` makes room for the address, and changes no content.
  resize_lem :
      (m : CairoMemory F) (a : ℕ)
      → 0 < len m
      → (m' : CairoMemory F) × (resize m a ≡ ok m')
        × (len m' ≡ max (len m) (a + 1))
        × (m'.codelen ≡ m.codelen)
        × ((j : ℕ) → cell m' j ≡ cell m j)
  unfolding resize len cell
  resize_lem m a h = elim (Bool-cases (leb (length m.cells - 1) a)) [
    | inl grow ↦ (
      record m { cells = m.cells ++ replicate (a - (length m.cells - 1)) none },
      rw (lt→ltb _ _ h, grow),
      ground (
        arith,
        length-append m.cells (replicate (a - (length m.cells - 1)) none),
        length-replicate {A = Option (CairoWord F)} (a - (length m.cells - 1)) none,
      ),
      refl,
      λ j. ap (Option.map (λ w. w.word)) (flatten-append_replicate m.cells _ j),
    )
    | inr fits ↦ (m, rw (lt→ltb _ _ h, fits), ground arith, refl, λ j. refl)
  ]

  cell-some :
      (m : CairoMemory F) (j : ℕ) (x : Option (CairoWord F))
      → get_elem? m.cells j ≡ some x
      → Option.map (λ w. w.word) x ≡ cell m j
  unfolding cell
  cell-some m j x e = rw e

  -- A successful write to a cell in range.
  cell-set :
      (m : CairoMemory F) (a : ℕ) (x : F)
      → a < len m
      → (j : ℕ)
      → cell (record m { cells = set m.cells a (some (record { word = x })) }) j
        ≡ (if a == j then some x else cell m j)
  unfolding cell len
  cell-set m a x h j = elim (Bool-cases (a == j)) [
    | inl same ↦
        rw
          (same, ← (==_iff a j).0 same, get_elem?-set_self m.cells a (some (record { word = x })) h)
          refl
    | inr other ↦
        let e : a ≢ j = ground arith in
        rw (other, get_elem?-set_ne m.cells a j (some (record { word = x })) e) refl
  ]

module _ {F : Type 0} ⦃f : Field F⦄ where
  -- A read of a memory with its dummy cell does not panic: it returns the content of the address,
  -- makes room for the address, and changes no content.
  pub read_total :
      (m : CairoMemory F) (a : F)
      → 0 < len m
      → (m' : CairoMemory F) × (read m a ≡ ok (cell m (to_u64 a), m'))
        × (len m' ≡ max (len m) (to_u64 a + 1))
        × (m'.codelen ≡ m.codelen)
        × ((j : ℕ) → cell m' j ≡ cell m j)
  unfolding read index len
  read_total m a h =
      let (m', run, room, code, same) = resize_lem m (to_u64 a) h in
      let inside : to_u64 a < len m' = omega arith in
      let (x, here) = get_elem?-lt_length m'.cells (to_u64 a) inside in
      (
        m',
        rw (run, index, here)
            (ap (λ o. ok (o, m')) (cell-some m' (to_u64 a) x here ∙ same (to_u64 a))),
        room,
        code,
        same,
      )

  -- A write to a memory with its dummy cell does not panic: afterwards the address holds the
  -- element, there is room for it, and every other content is as before.
  pub write_total :
      (m : CairoMemory F) (a x : F)
      → 0 < len m
      → (m' : CairoMemory F) × (write m a x ≡ ok m')
        × (len m' ≡ max (len m) (to_u64 a + 1))
        × (m'.codelen ≡ m.codelen)
        × ((j : ℕ) → cell m' j ≡ (if to_u64 a == j then some x else cell m j))
  unfolding write len
  write_total m a x h =
      let (m', run, room, code, same) = resize_lem m (to_u64 a) h in
      let inside : to_u64 a < len m' = omega (arith) in
      (
        record m' { cells = set m'.cells (to_u64 a) (some (record { word = x })) },
        rw (run, lt→ltb _ _ inside),
        length-set m'.cells _ _ ∙ room,
        code,
        λ j.
            cell-set m' (to_u64 a) x inside j
            ∙ ap (λ o. if to_u64 a == j then some x else o) (same j),
      )
