-- ===== src/Cairo/Memory.antt =====
-- cairo/src/memory.rs: the memory of a program, a vector of words that grows on access. Cell 0 is a
-- dummy; a cell that was never written is `none`.
pub mod Cells
use proof_systems.Prelude.{
  ℕ, ◌-◌, Bool, Option, none, some, List, ◌∷◌, ◌++◌, map, ltb, leb, length, get_elem?, set,
  replicate, if◌then◌else◌,
}
use proof_systems.Outcome.{Outcome, ok, panic, ◌>>=◌, expect}
use proof_systems.Field.{Field}
use proof_systems.Cairo.Helper.{to_u64}
use proof_systems.Cairo.Word.{CairoWord}
use mathlib.Core.Option

-- `cells` is the source's `data`.
pub record CairoMemory (F : Type 0) : Type 0 where
  pub codelen : ℕ
  pub cells : List (Option (CairoWord F))

module _ {F : Type 0} where
  unfoldable pub len : CairoMemory F → ℕ
  len m = length m.cells

  unfoldable pub get_codelen : CairoMemory F → ℕ
  get_codelen m = m.codelen

  unfoldable pub is_empty : CairoMemory F → Bool
  is_empty m = ltb (length m.cells) 2

  -- `addr.checked_sub(self.len() - 1)`: the inner subtraction overflows on a memory with no cell.
  unfoldable pub resize : CairoMemory F → ℕ → Outcome (CairoMemory F)
  unfolding len
  resize m addr =
      if ltb 0 (len m)
      then (if leb (len m - 1) addr
          then ok (record m { cells = m.cells ++ replicate (addr - (len m - 1)) none })
          else ok m)
      else panic "attempt to subtract with overflow"

module _ {F : Type 0} ⦃f : Field F⦄ where
  unfoldable pub new : List F → CairoMemory F
  new input =
      let aux = f.zero ∷ input in
      record { codelen = length aux - 1; cells = map (λ i. some (record { word = i })) aux }

  -- `self[addr]`
  unfoldable pub index : CairoMemory F → F → Outcome (Option (CairoWord F))
  index m addr = expect (get_elem? m.cells (to_u64 addr)) "index out of bounds"

  unfoldable pub write : CairoMemory F → F → F → Outcome (CairoMemory F)
  write m addr elem = do
    m' ← resize m (to_u64 addr)
    if ltb (to_u64 addr) (length m'.cells)
        then ok (record m' { cells = set m'.cells (to_u64 addr) (some (record { word = elem })) })
        else panic "index out of bounds"

  unfoldable pub read : CairoMemory F → F → Outcome (Option F × CairoMemory F)
  read m addr = do
    m' ← resize m (to_u64 addr)
    x ← index m' addr
    ok (Option.map (λ w. w.word) x, m')
