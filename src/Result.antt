-- ===== src/Result.antt =====
-- Chains of calls that stop at the first failing status, as the setup code of the driver does by
-- early returns and by `goto Fail`.
use windows_vhci_driver.Kernel.{Status, nt_success}
use windows_vhci_driver.Prelude.{◌≡◌, refl, if◌then◌else◌}

pub data Result (A : Type 0) : Type 0 where
  returned : A → Result A
  refused : Status → Result A

infixl 5 ◌>>=◌ ◌>>◌
abbrev pub ◌>>=◌ : {A B : Type 0} → Result A → (A → Result B) → Result B
returned a >>= f = f a
refused s >>= f = refused s

abbrev pub ◌>>◌ : {B : Type 0} → Result (Unit {0}) → Result B → Result B
m >> k = m >>= λ _. k

-- `if (!NT_SUCCESS(status)) { return status; }`
abbrev pub check : Status → Result (Unit {0})
check s = if nt_success s then returned tt else refused s

-- The same for a call that yields a value with its status.
abbrev pub checked : {A : Type 0} → Status × A → Result A
checked (s, a) = if nt_success s then returned a else refused s

-- Inversion of a chain that succeeds.
pub >>=-eq-returned :
    {A B : Type 0} (m : Result A) (f : A → Result B) {b : B}
    → (m >>= f) ≡ returned b
    → (a : A) × (m ≡ returned a) × (f a ≡ returned b)
>>=-eq-returned (returned a) f h = (a, refl, h)
>>=-eq-returned (refused s) f h = cc

pub returned-injective : {A : Type 0} {a b : A} → returned a ≡ returned b → a ≡ b
returned-injective e = cc
