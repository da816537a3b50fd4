-- ===== src/Kernel/Ntstatus.antt =====
-- NTSTATUS, with a constructor for each value that the driver names.
use windows_vhci_driver.Prelude.{ℕ, ◌^◌, Bool, true, false, ltb}

pub data Status : Type 0 where
  success : Status
  buffer_too_small : Status
  invalid_parameter : Status
  invalid_device_request : Status
  invalid_device_state : Status
  not_supported : Status
  device_not_ready : Status
  access_denied : Status
  insufficient_resources : Status
  other : ℕ → Status  -- any other value, as a bit pattern

-- NT_SUCCESS: the value is not negative as a LONG.
abbrev pub nt_success : Status → Bool
nt_success success = true
nt_success (other n) = ltb n (2 ^ 31)
nt_success _ = false
