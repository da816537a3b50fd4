-- ===== src/Tests.antt =====
-- Concrete requests, kernels and calls, for the tests and the instances of the theorems.
mod Runs
mod Instances
use windows_vhci_driver.Calls.{Call, writes, reads, ioctls, opens, enters_d0}
use windows_vhci_driver.Context.{FdoContext}
use windows_vhci_driver.Driver.{SetupCalls, fresh_context}
use windows_vhci_driver.Kernel.{Kernel, ListQueue, HciContext, Request, write_hci, read_hci, Status}
use windows_vhci_driver.Prelude.{
  ℕ, ◌+◌, true, false, some, List, [], ◌∷◌, length, ltb, if◌then◌else◌,
}

abbrev pub no_context : HciContext
no_context = record { data_len = 0; type = 0; bytes = [] }

-- A ReadFile or WriteFile of this length.
abbrev pub transfer : ℕ → ℕ → Request
transfer id length = record {
  id = id;
  length = length;
  kernel_mode = false;
  type3_input_buffer = 0;
  user_buffer = 0;
  output_buffer_length = 0;
  input = no_context;
}

-- A READ_HCI for this packet type, with this capacity.
abbrev pub hci_read : ℕ → ℕ → ℕ → Request
hci_read id type capacity = record {
  id = id;
  length = 0;
  kernel_mode = true;
  type3_input_buffer = 0x1000;
  user_buffer = 0x1004;
  output_buffer_length = capacity + 5;
  input = record { data_len = type; type = 0; bytes = [] };
}

-- A WRITE_HCI of this packet.
abbrev pub hci_write : ℕ → ℕ → List ℕ → Request
hci_write id type bytes = record {
  id = id;
  length = 0;
  kernel_mode = true;
  type3_input_buffer = 0x2000;
  user_buffer = 0;
  output_buffer_length = 0;
  input = record { data_len = length bytes; type = type; bytes = bytes };
}

-- Every call succeeds, and the request's input buffer holds these bytes.
abbrev pub sending : List ℕ → Kernel
sending bytes = record {
  allocate = λ n. true;
  output_buffer =
      λ r n. if ltb r.length n then (Status.buffer_too_small, 0) else (Status.success, r.length);
  input_buffer = λ r n. (Status.success, bytes);
  add_child = λ n. Status.success;
  passive_level = true;
  open_key = Status.success;
  query_ulong = λ knob. (Status.other 0xC0000034, 0);
  ddi_version = 1;
  version_size = 4;
  capabilities_size = 16;
}

abbrev pub kernel : Kernel
kernel = sending []

abbrev pub no_requests : ListQueue
no_requests = record { held = []; accepts = true }

abbrev pub setup_calls : SetupCalls ListQueue
setup_calls = record {
  device_create = Status.success;
  spin_lock_create = Status.success;
  bthx_io_queue = Status.success;
  read_event_queue = (Status.success, no_requests);
  read_data_queue = (Status.success, no_requests);
  default_queue = Status.success;
  user_read_queue = (Status.success, no_requests);
  create_symbolic_link = Status.success;
}

abbrev pub device : FdoContext ListQueue
device = fresh_context no_requests no_requests no_requests 0

-- A client with a radio in D0.
abbrev pub started : FdoContext ListQueue
started = record device {
  owner = some 7;
  radio_present = true;
  radio_started = true;
  current_radio_id = 1;
  next_radio_id = 2;
}

abbrev pub command_complete : List ℕ
command_complete = 14 ∷ 4 ∷ 1 ∷ 3 ∷ 12 ∷ 0 ∷ []

-- Open, ask for a radio, send an event before and after it starts.
abbrev pub bring_up : List Call
bring_up =
    opens (transfer 1 0) 7
    ∷ writes (sending (0xFF ∷ 0 ∷ [])) (transfer 2 2)
    ∷ writes (sending (4 ∷ command_complete)) (transfer 3 7)
    ∷ enters_d0 1
    ∷ writes (sending (4 ∷ command_complete)) (transfer 4 7)
    ∷ ioctls kernel (hci_read 5 4 257) 262 4 read_hci
    ∷ ioctls kernel (hci_read 6 4 257) 262 4 read_hci
    ∷ writes (sending (4 ∷ command_complete)) (transfer 7 7)
    ∷ []

-- Two events that queue, an ACL packet that a parked read takes, and a read of one event.
abbrev pub traffic : List Call
traffic =
    ioctls kernel (hci_read 1 2 1021) 1026 4 read_hci
    ∷ writes (sending (4 ∷ 14 ∷ [])) (transfer 2 2)
    ∷ writes (sending (4 ∷ 15 ∷ [])) (transfer 3 2)
    ∷ writes (sending (2 ∷ 16 ∷ [])) (transfer 4 2)
    ∷ ioctls kernel (hci_read 5 4 257) 262 4 read_hci
    ∷ []

-- The reply that a read takes, a packet that a parked read takes, and one that queues.
abbrev pub client_traffic : List Call
client_traffic =
    opens (transfer 1 0) 7
    ∷ writes (sending (0xFF ∷ 0 ∷ [])) (transfer 2 2)
    ∷ reads kernel (transfer 3 1026)
    ∷ reads kernel (transfer 4 1026)
    ∷ ioctls kernel (hci_write 5 1 (3 ∷ 12 ∷ 0 ∷ [])) 0 8 write_hci
    ∷ ioctls kernel (hci_write 6 1 (1 ∷ 16 ∷ 0 ∷ [])) 0 8 write_hci
    ∷ []
