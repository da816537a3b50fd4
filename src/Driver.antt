-- ===== src/Driver.antt =====
-- winvhci/driver.c: WinVhciEvtDeviceAdd, with the parts of the setup in winvhci/fdo.c
-- (WinVhciFdoCreateQueues) and winvhci/user.c (WinVhciUserCreateQueues).
pub mod Add
use windows_vhci_driver.Context.{FdoContext}
use windows_vhci_driver.Fdo.Dispatch.{read_ulong, or_default}
use windows_vhci_driver.Kernel.{Knob, Kernel, Status}
use windows_vhci_driver.Prelude.{ℕ, false, none, []}
use windows_vhci_driver.Result.{Result, returned, ◌>>=◌, ◌>>◌, check, checked}

-- What the framework answers to the calls of one device's setup; a created queue comes with its
-- status.
pub record SetupCalls (Queue : Type 0) : Type 0 where
  pub device_create : Status
  pub spin_lock_create : Status
  pub bthx_io_queue : Status
  pub read_event_queue : Status × Queue
  pub read_data_queue : Status × Queue
  pub default_queue : Status
  pub user_read_queue : Status × Queue
  pub create_symbolic_link : Status

module _ {Queue : Type 0} where
  -- The knob, then the queues of the BTHX side.
  unfoldable pub fdo_create_queues :
      Kernel → SetupCalls Queue → Result (record { knob : ℕ; event : Queue; acl : Queue })
  fdo_create_queues k c = do
    check c.bthx_io_queue
    event_queue ← checked c.read_event_queue
    data_queue ← checked c.read_data_queue
    returned (record {
      knob = or_default (read_ulong k Knob.fail_alloc_one_in) 0;
      event = event_queue;
      acl = data_queue;
    })

  unfoldable pub user_create_queues : SetupCalls Queue → Result Queue
  user_create_queues c = do
    check c.default_queue
    reader_queue ← checked c.user_read_queue
    check c.create_symbolic_link
    returned reader_queue

  -- RtlZeroMemory, with the three handles that are created later. A zeroed LIST_ENTRY is no list
  -- yet, and is put down as the empty one.
  abbrev pub zeroed_context : Queue → Queue → Queue → FdoContext Queue
  zeroed_context event_queue data_queue reader_queue = record {
    read_event_queue = event_queue;
    read_data_queue = data_queue;
    user_read_queue = reader_queue;
    owner = none;
    host_to_ctrl_list = [];
    pending_event_list = [];
    pending_data_list = [];
    host_to_ctrl_count = 0;
    pending_event_count = 0;
    pending_data_count = 0;
    host_to_ctrl_peak = 0;
    pending_event_peak = 0;
    pending_data_peak = 0;
    drops_no_client = 0;
    drops_alloc_failed = 0;
    writes_total = 0;
    queued_to_user_total = 0;
    writes_no_radio = 0;
    radios_alive = 0;
    radio_present = false;
    radio_started = false;
    current_radio_id = 0;
    next_radio_id = 0;
    bthx_version = 0;
    fail_alloc_one_in = 0;
    alloc_seq = 0;
    pdo_request_count = 0;
    ioctl_count = 0;
    write_hci_count = 0;
    pended_event_reads = 0;
    pended_data_reads = 0;
  }

  -- The knob, which WinVhciFdoCreateQueues reads.
  abbrev pub set_knob : ℕ → FdoContext Queue → FdoContext Queue
  set_knob knob ctx = record ctx { fail_alloc_one_in = knob }

  -- The first statements of WinVhciUserCreateQueues.
  abbrev pub init_lists : FdoContext Queue → FdoContext Queue
  init_lists ctx = record ctx {
    host_to_ctrl_list = [];
    pending_event_list = [];
    pending_data_list = [];
    next_radio_id = 1;
  }

  abbrev pub fresh_context : Queue → Queue → Queue → ℕ → FdoContext Queue
  fresh_context event_queue data_queue reader_queue knob =
      init_lists (set_knob knob (zeroed_context event_queue data_queue reader_queue))

  unfoldable pub evt_device_add : Kernel → SetupCalls Queue → Result (FdoContext Queue)
  unfolding fdo_create_queues user_create_queues
  evt_device_add k c = do
    check c.device_create
    check c.spin_lock_create
    q ← fdo_create_queues k c
    reader_queue ← user_create_queues c
    returned (fresh_context q.event q.acl reader_queue q.knob)
