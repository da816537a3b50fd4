-- ===== src/Radio/Opcode.antt =====
-- The opcode byte of WinVhciHandleControl (winvhci/user.c).
use windows_vhci_driver.Context.{FdoContext}
use windows_vhci_driver.Kernel.{Wdf, Kernel, Status}
use windows_vhci_driver.Prelude.{
  ℕ, zero, suc, ◌%◌, ◌≤◌, ◌<◌, ◌≡◌, refl, Bool, true, false, not, [], ◌∷◌, arith, ltb, ◌==◌,
  if◌then◌else◌,
}
use windows_vhci_driver.User.Control.{reserved_bits, quirk_bits, create_radio, handle_control}

-- A test passed by each of the opcodes under a bound, the highest first.
passes : (ℕ → Bool) → ℕ → Bool
passes test zero = true
passes test (suc top) = if test top then passes test top else false

passes_at :
    (test : ℕ → Bool) (bound opcode : ℕ)
    → opcode < bound
    → passes test bound ≡ true
    → test opcode ≡ true
unfolding passes
passes_at test zero opcode small all = elim small [ ]
passes_at test (suc top) opcode small all = ground (arith, passes_at test top opcode)

-- Both tests are true, or both are false.
abbrev alike : Bool → Bool → Bool
alike true b = b
alike false b = not b

alike_eq : (a b : Bool) → alike a b ≡ true → a ≡ b
alike_eq a b h = ground arith

reserved_table : passes (λ x. alike (reserved_bits x == 0) (ltb (x % 64) 4)) 256 ≡ true
unfolding passes
reserved_table = refl

quirk_table : passes (λ x. alike (quirk_bits x == 0) (ltb x 64)) 256 ≡ true
unfolding passes
quirk_table = refl

pub reserved_lem : (x : ℕ) → x < 256 → (reserved_bits x == 0) ≡ ltb (x % 64) 4
reserved_lem x h = alike_eq _ _ (passes_at _ 256 x h reserved_table)

pub quirk_lem : (x : ℕ) → x < 256 → (quirk_bits x == 0) ≡ ltb x 64
quirk_lem x h = alike_eq _ _ (passes_at _ 256 x h quirk_table)

module _ {Queue : Type 0} (w : Wdf Queue) where
  -- Of the 256 opcodes exactly 0 to 3 go on to create a radio. An opcode with a reserved bit is
  -- refused as an invalid parameter, one with only a quirk bit as not supported, and a refusal
  -- changes nothing and completes nothing.
  pub handle_control-opcode :
      (k : Kernel) (ctx : FdoContext Queue) (opcode : ℕ)
      → opcode < 256
      → (opcode < 4 → handle_control w k ctx (opcode ∷ []) ≡ create_radio w k ctx opcode)
        × (4 ≤ opcode % 64
            → handle_control w k ctx (opcode ∷ []) ≡ (Status.invalid_parameter, ctx, []))
        × (64 ≤ opcode
            → opcode % 64 < 4
            → handle_control w k ctx (opcode ∷ []) ≡ (Status.not_supported, ctx, []))
  unfolding handle_control
  handle_control-opcode k ctx opcode h = (
    λ low. rw (reserved_lem opcode h, quirk_lem opcode h) (ground arith),
    λ reserved. rw (reserved_lem opcode h, quirk_lem opcode h) (ground arith),
    λ quirk unreserved. rw (reserved_lem opcode h, quirk_lem opcode h) (ground arith),
  )
