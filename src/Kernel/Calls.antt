-- ===== src/Kernel/Calls.antt =====
-- The framework's I/O queues, and the answers of the kernel during one call of the driver.
use windows_vhci_driver.Kernel.Irp.{Request}
use windows_vhci_driver.Kernel.Ntstatus.{Status, nt_success}
use windows_vhci_driver.Prelude.{
  ℕ, ◌<◌, ◌≡◌, ◌⊎◌, Bool, true, false, Option, none, some, List, [], ◌∷◌, ◌++◌, remove_at,
}

-- WDFQUEUE, in manual dispatch.
pub record Wdf (Queue : Type 0) : Type 0 where
  pub retrieve_next : Queue → Option (Request × Queue)  -- WdfIoQueueRetrieveNextRequest
  pub forward : Request → Queue → Status × Queue  -- WdfRequestForwardToIoQueue
  pub purge : Queue → Queue  -- WdfIoQueuePurgeSynchronously
  pub start : Queue → Queue  -- WdfIoQueueStart
  pub cancel : ℕ → Queue → Queue  -- the framework drops a cancelled request, by its place
  pub waiting : Queue → List Request  -- the requests that the queue holds, oldest first

-- The registry values that winvhci/fdo.c reads.
pub data Knob : Type 0 where
  sco_support max_sco_channels fail_alloc_one_in : Knob

pub record Kernel : Type 0 where
  pub allocate : ℕ → Bool  -- ExAllocatePool2 returns a block
  pub output_buffer : Request → ℕ → Status × ℕ  -- WdfRequestRetrieveOutputBuffer
  pub input_buffer : Request → ℕ → Status × List ℕ  -- WdfRequestRetrieveInputBuffer
  pub add_child : ℕ → Status  -- WdfChildListAddOrUpdateChildDescriptionAsPresent
  pub passive_level : Bool  -- KeGetCurrentIrql() == PASSIVE_LEVEL
  pub open_key : Status  -- WdfRegistryOpenKey
  pub query_ulong : Knob → Status × ℕ  -- WdfRegistryQueryULong
  pub ddi_version : ℕ  -- Microsoft_BTHX_DDI_Version.Version
  pub version_size : ℕ  -- sizeof(BTHX_VERSION)
  pub capabilities_size : ℕ  -- sizeof(BTHX_CAPABILITIES)

module _ {Queue : Type 0} (w : Wdf Queue) where
  -- A queue hands out what it holds in the order of arrival.
  abbrev pub Retrieves : Queue → Option (Request × Queue) → Type 0
  Retrieves q none = w.waiting q ≡ []
  Retrieves q (some (r, q')) = w.waiting q ≡ r ∷ w.waiting q'

  -- A forwarded request waits behind the others, or is refused and not held.
  abbrev pub Forwards : Request → Queue → Status × Queue → Type 0
  Forwards r q (status, q') =
      ((nt_success status ≡ true) × (w.waiting q' ≡ w.waiting q ++ (r ∷ [])))
      ⊎ ((nt_success status ≡ false) × (w.waiting q' ≡ w.waiting q))

  -- The documented behaviour of the queues on which the driver relies.
  pub record IsFifo : Type 0 where
    pub retrieves : (q : Queue) → Retrieves q (w.retrieve_next q)
    pub forwards : (r : Request) (q : Queue) → Forwards r q (w.forward r q)
    pub cancels : (i : ℕ) (q : Queue) → w.waiting (w.cancel i q) ≡ remove_at i (w.waiting q)
    pub purges : (q : Queue) → w.waiting (w.purge q) ≡ []
    pub starts : (q : Queue) → w.waiting (w.start q) ≡ w.waiting q

-- WdfRequestRetrieveOutputBuffer on a buffered ReadFile: it fails for a length of 0, and otherwise
-- yields a buffer of the length that the request was sent with.
pub record IsBuffered (k : Kernel) : Type 0 where
  pub output : (r : Request) → 0 < r.length → k.output_buffer r 1 ≡ (Status.success, r.length)
  pub refuses : (r : Request) → r.length ≡ 0 → nt_success (k.output_buffer r 1).0 ≡ false
