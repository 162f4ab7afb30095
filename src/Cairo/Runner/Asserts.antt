-- ===== src/Cairo/Runner/Asserts.antt =====
-- cairo/src/runner.rs: the assertion `dst = res`, on the memory as a function.
use proof_systems.Prelude.{
  ℕ, ◌≡◌, refl, ap, Option, none, some, arith, inl, inr, ◌==◌, if◌then◌else◌, Option-cases,
}
use proof_systems.Outcome.{ok, panic}
use proof_systems.Field.{Field}
use proof_systems.Cairo.Helper.{to_u64}
use proof_systems.Cairo.Runner.State.{CairoStep}
use proof_systems.Cairo.Runner.Contents.{Contents, update, contents_memory}
use proof_systems.Cairo.Runner.Step.{assert_equal}

module _ {F : Type 0} ⦃f : Field F⦄ where
  -- The known side of the assertion, and the address that receives it.
  abbrev pub known : Option F → Option F → Option F
  known none dst = dst
  known (some r) dst = some r

  abbrev pub receiver : Option F → F → F → F
  receiver none adr_dst adr_op1 = adr_op1
  receiver (some r) adr_dst adr_op1 = adr_dst

  known_side :
      (s : CairoStep F (Contents F)) (x : F)
      → known s.vars.res s.vars.dst ≡ some x
      → (s' : CairoStep F (Contents F)) × (assert_equal s ≡ ok (tt, s'))
        × (s'.vars.dst ≡ some x)
        × (s'.vars.res ≡ some x)
        × (s'.mem ≡ update s.mem (to_u64 (receiver s.vars.res s.vars.adr_dst s.vars.adr_op1)) x)
        × (s'.curr ≡ s.curr)
  unfolding assert_equal
  known_side s x h = elim (Option-cases s.vars.res) [
    | inl unknown ↦ (
      record s {
        mem = update s.mem (to_u64 s.vars.adr_op1) x;
        vars = record s.vars { op1 = some x; res = some x };
      },
      ground arith,
      ground arith,
      refl,
      ground arith,
      refl,
    )
    | inr (r, e) ↦ (
      record s {
        mem = update s.mem (to_u64 s.vars.adr_dst) x;
        vars = record s.vars { dst = some x };
      },
      ground arith,
      refl,
      ground arith,
      ground arith,
      refl,
    )
  ]

  -- Where `res` or else `dst` is known to be `x`, the assertion succeeds, and afterwards both are
  -- `x`. It writes `x` to the address of `dst` if `res` was known and to that of `op1` if not, and
  -- changes no other cell; the pointers stay.
  pub assert_equal_lem :
      (s : CairoStep F (Contents F)) (x : F)
      → known s.vars.res s.vars.dst ≡ some x
      → (s' : CairoStep F (Contents F)) × (assert_equal s ≡ ok (tt, s'))
        × (s'.vars.dst ≡ some x)
        × (s'.vars.res ≡ some x)
        × ((j : ℕ)
            → s'.mem j ≡ (
                if to_u64 (receiver s.vars.res s.vars.adr_dst s.vars.adr_op1) == j
                then some x
                else s.mem j))
        × (s'.curr ≡ s.curr)
  assert_equal_lem s x h =
      let (s', run, dst, res, mem, curr) = known_side s x h in
      (s', run, dst, res, λ j. ap (λ (m : Contents F). m j) mem, curr)

  -- With neither known it panics.
  pub assert_equal-none :
      (s : CairoStep F (Contents F))
      → s.vars.res ≡ none
      → s.vars.dst ≡ none
      → assert_equal s ≡ panic "None dst after OPC_AEQ"
  unfolding assert_equal
  assert_equal-none s h k = ground arith
