-- ===== src/Kernel/Irp.antt =====
-- WDFREQUEST with the IRP behind it, and what a completion reports. A buffer that the driver
-- writes through a struct type is recorded as that struct.
use windows_vhci_driver.Prelude.{ℕ, Bool, List}

-- BTHX_HCI_READ_WRITE_CONTEXT
pub record HciContext : Type 0 where
  pub data_len : ℕ
  pub type : ℕ
  pub bytes : List ℕ

-- BTHX_CAPABILITIES
pub record Capabilities : Type 0 where
  pub max_acl_transfer_in_size : ℕ
  pub sco_support : ℕ
  pub max_sco_channels : ℕ
  pub is_device_idle_capable : Bool
  pub is_device_wake_capable : Bool

pub record Request : Type 0 where
  pub id : ℕ
  pub length : ℕ  -- Parameters.Read.Length or Parameters.Write.Length
  pub kernel_mode : Bool  -- RequestorMode == KernelMode
  pub type3_input_buffer : ℕ  -- an address, 0 for NULL
  pub user_buffer : ℕ  -- an address, 0 for NULL
  pub output_buffer_length : ℕ  -- of the IRP's current stack location
  pub input : HciContext  -- what stands at type3_input_buffer

-- The five BTHX codes of bthxddi.h, and any other.
pub data IoControlCode : Type 0 where
  get_version set_version query_capabilities write_hci read_hci : IoControlCode
  unknown : ℕ → IoControlCode
