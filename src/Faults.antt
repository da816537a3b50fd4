-- ===== src/Faults.antt =====
-- The test-only fault injection, WinVhciTestFailAlloc of winvhci/winvhci.h.
use native.Mathlib.Nat.{div-add-mod, div-eq_of_lt-le, mod-lt}
use native.Mathlib.Decide.{dec_lt}
use windows_vhci_driver.Context.{FdoContext, test_fail_alloc}
use windows_vhci_driver.Prelude.{
  ℕ, zero, suc, ◌+◌, ◌*◌, ◌/◌, ◌%◌, ◌^◌, ◌≤◌, ◌<◌, ◌≡◌, refl, sym, ap, ◌∙◌, arith, ◌==◌,
  if◌then◌else◌, inc32,
}

div_step_below :
    (a m q : ℕ)
    → m * q ≤ a + 1
    → a + 1 < m * q + m
    → ((a + 1) / m ≡ q) × (m * q + (a + 1) % m ≡ a + 1)
div_step_below a m q low high =
    let e : (a + 1) / m ≡ q = div-eq_of_lt-le {k = q} m (omega arith) (omega arith) in
    (e, ap (λ t. m * t + (a + 1) % m) (sym e) ∙ div-add-mod (a + 1) m)

-- A step of the numerator goes to the next quotient exactly where the remainder comes to 0.
div_step : (a m : ℕ) → 0 < m → (a + 1) / m ≡ (if (a + 1) % m == 0 then a / m + 1 else a / m)
div_step a m h = elim (dec_lt (a % m + 1) m) [
  | yes inside ↦
      let (e, r) =
        div_step_below a m (a / m) (omega (arith, div-add-mod a m))
          (omega (arith, div-add-mod a m)) in
      ground (arith, e, r, div-add-mod a m)
  | no over ↦
      let (e, r) =
        div_step_below a m (a / m + 1) (omega (arith, div-add-mod a m, mod-lt a h))
          (omega (arith, div-add-mod a m, mod-lt a h)) in
      ground (arith, e, r, div-add-mod a m, mod-lt a h)
]

module _ {Queue : Type 0} where
  -- A number of allocations in a row: how many of them fail, and the context after them.
  abbrev pub allocations : ℕ → FdoContext Queue → ℕ × FdoContext Queue
  allocations zero ctx = (0, ctx)
  allocations (suc n) ctx =
      let (failed, ctx') = test_fail_alloc ctx in
      let (later, ctx'') = allocations n ctx' in ((if failed then suc later else later), ctx'')

  -- With the knob at 0 nothing fails.
  never_fails :
      (n : ℕ) (ctx : FdoContext Queue) → ctx.fail_alloc_one_in ≡ 0 → allocations n ctx ≡ (0, ctx)
  unfolding test_fail_alloc
  never_fails zero ctx e = refl
  never_fails (suc n) ctx e = ground (arith, never_fails n ctx e)

  -- Every n-th allocation fails when the knob holds n, counted over all of them: while the counter
  -- does not wrap, a row of allocations has as many failures as there are multiples of n among
  -- their numbers.
  pub allocations-failures :
      (n : ℕ) (ctx : FdoContext Queue)
      → 0 < ctx.fail_alloc_one_in
      → ctx.alloc_seq + n < 2 ^ 32
      → (allocations n ctx).0 + ctx.alloc_seq / ctx.fail_alloc_one_in
        ≡ (ctx.alloc_seq + n) / ctx.fail_alloc_one_in
  unfolding test_fail_alloc
  allocations-failures zero ctx h k =
      let e : ctx.alloc_seq + 0 ≡ ctx.alloc_seq = omega arith in rw e (omega arith)
  allocations-failures (suc n) ctx h k =
      let seq : inc32 ctx.alloc_seq ≡ ctx.alloc_seq + 1 = omega arith in
      let total : ctx.alloc_seq + 1 + n ≡ ctx.alloc_seq + suc n = omega arith in
      let later =
        allocations-failures n (record ctx { alloc_seq = inc32 ctx.alloc_seq }) h (omega arith) in
      ground (arith, rw (seq, total) at later, div_step ctx.alloc_seq ctx.fail_alloc_one_in h, seq)
