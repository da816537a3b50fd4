-- ===== src/Tests/Instances.antt =====
-- The theorems at concrete inputs.
use windows_vhci_driver.Buffers.{IsContained}
use windows_vhci_driver.Buffers.Run.{run-IsContained}
use windows_vhci_driver.Calls.{
  Call, writes, ioctls, opens, closes, enters_d0, exits_d0, perform, run,
}
use windows_vhci_driver.Channels.{Separates}
use windows_vhci_driver.Channels.Run.{run-Separates}
use windows_vhci_driver.Client.{received, queued_bytes}
use windows_vhci_driver.Client.Run.{all_sent, run_client}
use windows_vhci_driver.Close.{IsClosed, close_run-IsClosed}
use windows_vhci_driver.Context.{h4_vendor, FdoContext, nothing, complete, events}
use windows_vhci_driver.Driver.{evt_device_add}
use windows_vhci_driver.Driver.Add.{Outcome, evt_device_add-Outcome}
use windows_vhci_driver.Faults.{allocations, allocations-failures}
use windows_vhci_driver.Fdo.Dispatch.{read_ulong, bthx_dispatch}
use windows_vhci_driver.Kernel.{
  IsBuffered, ListQueue, list_wdf, list_wdf-IsFifo, write_hci, read_hci, Status, nt_success,
}
use windows_vhci_driver.Pdo.{evt_d0_exit}
use windows_vhci_driver.Prelude.{
  ℕ, ◌+◌, ◌*◌, ◌%◌, ◌^◌, ◌≤◌, ◌<◌, ◌≡◌, refl, ◌↔◌, ◌⊎◌, inl, true, false, ◌&&◌, none, List, [], ◌∷◌,
  ◌++◌, arith, length, All, inc32,
}
use windows_vhci_driver.Radio.Admission.{HasRoom, IsOverlong, write_data-admission}
use windows_vhci_driver.Radio.Create.{reply_body-id, create_radio-fields}
use windows_vhci_driver.Radio.Ids.{ids_from, all_taken, run-ids}
use windows_vhci_driver.Radio.Opcode.{handle_control-opcode}
use windows_vhci_driver.Radio.Power.{run-power}
use windows_vhci_driver.Radio.Stale.{replaced, replaced_admits}
use windows_vhci_driver.Refusals.{IsUntouched, dispatch_write-refused}
use windows_vhci_driver.Rendezvous.Backlog.{IsBacklog}
use windows_vhci_driver.Requests.{finished, held_by}
use windows_vhci_driver.Requests.Run.{all_given, all_dropped, run_account}
use windows_vhci_driver.Stream.{packet, delivered}
use windows_vhci_driver.Stream.Calls.Run.{accepted, IsReady, run_stream}
use windows_vhci_driver.Stream.Short.{Loses, short_read-Loses}
use windows_vhci_driver.System.Handlers.{run-Reach}
use windows_vhci_driver.System.Rule.{rendezvous_rule, snapshot_depths}
use windows_vhci_driver.Tests.{
  transfer, hci_read, hci_write, sending, kernel, no_requests, setup_calls, device, started,
  command_complete, bring_up, traffic, client_traffic,
}
use windows_vhci_driver.User.Backlogs.{purge_backlogs}
use windows_vhci_driver.User.Control.{reply_body, create_radio, handle_control}
use windows_vhci_driver.User.Handle.{evt_device_file_create, evt_file_close}
use windows_vhci_driver.User.Stats.{snapshot}
use windows_vhci_driver.User.ToUser.{park_for_user, queue_to_user}
use windows_vhci_driver.User.Write.{admit, write_data, write_packet, dispatch_write}

rendezvous_rule_example :
    let t = (run list_wdf device bring_up).0 in
    ((list_wdf.waiting t.user_read_queue ≡ []) ⊎ (t.host_to_ctrl_list ≡ []))
    × ((list_wdf.waiting t.read_event_queue ≡ []) ⊎ (t.pending_event_list ≡ []))
    × ((list_wdf.waiting t.read_data_queue ≡ []) ⊎ (t.pending_data_list ≡ []))
unfolding evt_device_add read_ulong
rendezvous_rule_example =
    rendezvous_rule list_wdf list_wdf-IsFifo kernel setup_calls {s = device} refl
      (run-Reach list_wdf device bring_up)

snapshot_depths_example :
    let t = (run list_wdf device bring_up).0 in
    let stats = snapshot t in
    (stats.host_to_ctrl_count ≡ length t.host_to_ctrl_list % 2 ^ 32)
    × (stats.pending_event_count ≡ length t.pending_event_list % 2 ^ 32)
    × (stats.pending_data_count ≡ length t.pending_data_list % 2 ^ 32)
    × (stats.host_to_ctrl_count ≤ stats.host_to_ctrl_peak)
    × (stats.pending_event_count ≤ stats.pending_event_peak)
    × (stats.pending_data_count ≤ stats.pending_data_peak)
unfolding evt_device_add read_ulong
snapshot_depths_example =
    snapshot_depths list_wdf list_wdf-IsFifo kernel setup_calls {s = device} refl
      (run-Reach list_wdf device bring_up)

idle-IsBacklog : IsBacklog list_wdf no_requests [] 0 0
idle-IsBacklog = record {
  counted = omega arith;
  peaked = inl (omega arith);
  fits = omega arith;
  meets = inl refl;
}

started-IsReady : IsReady list_wdf started
started-IsReady = record {
  consistent = record { user = idle-IsBacklog; event = idle-IsBacklog; acl = idle-IsBacklog };
  events_ready = record { roomy = tt; fitting = tt };
  acl_ready = record { roomy = tt; fitting = tt };
}

run_stream_example :
    delivered events (run list_wdf started traffic).1
      ++ (run list_wdf started traffic).0.pending_event_list
    ≡ [] ++ accepted list_wdf events started traffic
run_stream_example =
    run_stream list_wdf list_wdf-IsFifo events started traffic started-IsReady
      ((refl, omega arith), (tt, (tt, (tt, ((refl, omega arith), tt)))))

sending-IsBuffered : (bytes : List ℕ) → IsBuffered (sending bytes)
sending-IsBuffered bytes = record { output = λ r h. ground arith; refuses = λ r e. ground arith }

run_client_example :
    received (run list_wdf device client_traffic).1
      ++ queued_bytes (run list_wdf device client_traffic).0.host_to_ctrl_list
    ≡ [] ++ all_sent list_wdf device client_traffic
run_client_example =
    run_client list_wdf list_wdf-IsFifo device client_traffic
      (record { user = idle-IsBacklog; event = idle-IsBacklog; acl = idle-IsBacklog })
      (record { readers = tt; fitting = tt })
      (
        tt,
        (
          (sending-IsBuffered _),
          (
            (sending-IsBuffered _),
            ((sending-IsBuffered _), ((sending-IsBuffered _), ((sending-IsBuffered _), tt))),
          ),
        ),
      )

run_account_example :
    let (ctx', done) = run list_wdf started traffic in
    finished 5 done + held_by list_wdf 5 ctx' + all_dropped list_wdf 5 started traffic
    ≡ held_by list_wdf 5 started + all_given 5 traffic
run_account_example = run_account list_wdf list_wdf-IsFifo 5 started traffic

run-Separates_example : Separates list_wdf (run list_wdf started traffic)
run-Separates_example =
    run-Separates list_wdf list_wdf-IsFifo started traffic
      (record { event_reads = tt; data_reads = tt; event_packets = tt; data_packets = tt })

run-IsContained_example : All IsContained (run list_wdf device client_traffic).1
run-IsContained_example = run-IsContained list_wdf device client_traffic (
  tt,
  (
    (sending-IsBuffered _),
    (
      (sending-IsBuffered _),
      ((sending-IsBuffered _), ((sending-IsBuffered _), ((sending-IsBuffered _), tt))),
    ),
  ),
)

-- A radio that the stack has not brought up yet.
abbrev waiting_radio : FdoContext ListQueue
waiting_radio = record started { radio_started = false }

write_data-admission_example :
    let out = write_data list_wdf kernel waiting_radio 4 command_complete in
    ((out.0 ≡ Status.device_not_ready) ↔ (
      HasRoom 4 command_complete
      × ((waiting_radio.radio_present && waiting_radio.radio_started) ≡ false)))
    × (out.0 ≡ Status.device_not_ready
        → (out.1 ≡ record waiting_radio { writes_no_radio = inc32 waiting_radio.writes_no_radio })
          × (out.2 ≡ []))
    × (IsOverlong 4 command_complete → out ≡ (Status.invalid_parameter, waiting_radio, []))
write_data-admission_example = write_data-admission list_wdf kernel waiting_radio 4 command_complete

abbrev after_close : List Call
after_close =
    ioctls kernel (hci_write 1 1 (3 ∷ 12 ∷ 0 ∷ [])) 0 8 write_hci
    ∷ ioctls kernel (hci_read 2 4 257) 262 4 read_hci
    ∷ exits_d0 1
    ∷ []

close_run-IsClosed_example :
    IsClosed (run list_wdf (evt_file_close list_wdf started).1 after_close).0
close_run-IsClosed_example = close_run-IsClosed list_wdf started after_close (tt, (tt, (tt, tt)))

-- The exit of an earlier radio comes late.
abbrev late_exit : List Call
late_exit = exits_d0 0 ∷ exits_d0 1 ∷ enters_d0 1 ∷ exits_d0 0 ∷ []

run-power_example :
    let t = (run list_wdf started late_exit).0 in
    (t.radio_present ≡ true)
    × (t.current_radio_id ≡ 1)
    × (t.next_radio_id ≡ 2)
    × (t.radio_started ≡ true)
run-power_example = run-power list_wdf started late_exit refl (tt, (tt, (tt, (tt, tt))))

dispatch_write-refused_example :
    let ctx' = (dispatch_write list_wdf (sending (4 ∷ command_complete)) device (transfer 1 7)).0 in
    IsUntouched device ctx'
unfolding dispatch_write write_packet write_data
dispatch_write-refused_example =
    dispatch_write-refused list_wdf (sending (4 ∷ command_complete)) device (transfer 1 7) refl

evt_device_add-Outcome_example : Outcome kernel setup_calls (evt_device_add kernel setup_calls)
evt_device_add-Outcome_example = evt_device_add-Outcome kernel setup_calls

-- One event waits, and a read with room for one byte comes.
abbrev one_event : FdoContext ListQueue
one_event = record started {
  pending_event_list = packet 4 command_complete ∷ [];
  pending_event_count = 1;
  pending_event_peak = 1;
}

short_read-Loses_example :
    let out = bthx_dispatch list_wdf kernel one_event (hci_read 5 4 1) 6 4 read_hci in
    Loses events [] one_event out.0
    × (out.1 ≡ complete (hci_read 5 4 1) Status.buffer_too_small 0 nothing ∷ [])
short_read-Loses_example =
    short_read-Loses list_wdf events kernel one_event (hci_read 5 4 1) 6 4
      (packet 4 command_complete) []
      (record {
        from_kernel = refl;
        has_input = λ e. omega (arith, e);
        has_type = omega arith;
        laid_out = refl;
        has_header = omega arith;
        same_length = refl;
      })
      refl refl (omega arith)

handle_control-opcode_example :
    (2 < 4 → handle_control list_wdf kernel device (2 ∷ []) ≡ create_radio list_wdf kernel device 2)
    × (4 ≤ 2 % 64
        → handle_control list_wdf kernel device (2 ∷ []) ≡ (Status.invalid_parameter, device, []))
    × (64 ≤ 2
        → 2 % 64 < 4
        → handle_control list_wdf kernel device (2 ∷ []) ≡ (Status.not_supported, device, []))
handle_control-opcode_example = handle_control-opcode list_wdf kernel device 2 (omega arith)

-- A second client asks for a radio after the first has closed.
abbrev two_clients : List Call
two_clients =
    opens (transfer 1 0) 7
    ∷ writes (sending (0xFF ∷ 0 ∷ [])) (transfer 2 2)
    ∷ closes
    ∷ opens (transfer 3 0) 8
    ∷ writes (sending (0xFF ∷ 0 ∷ [])) (transfer 4 2)
    ∷ []

two_clients-all_taken : all_taken list_wdf device two_clients ≡ 1 ∷ 2 ∷ []
unfolding perform evt_device_file_create evt_file_close dispatch_write write_packet handle_control
    create_radio queue_to_user park_for_user purge_backlogs
two_clients-all_taken = refl

run-ids_example :
    all_taken list_wdf device two_clients
    ≡ ids_from 1 (length (all_taken list_wdf device two_clients))
run-ids_example = run-ids list_wdf device two_clients

create_radio-fields_example :
    let (status, ctx', done) = create_radio list_wdf kernel device 0 in
    (device.radio_present ≡ true
      → (status ≡ Status.invalid_device_state) × (ctx' ≡ device) × (done ≡ []))
    × (device.radio_present ≡ false
        → (nt_success status ≡ true)
          × (ctx'.radio_present ≡ true)
          × (ctx'.current_radio_id ≡ 1)
          × (ctx'.next_radio_id ≡ 2)
          × (ctx'.radio_started ≡ false)
          × (ctx'.owner ≡ none))
create_radio-fields_example = create_radio-fields list_wdf kernel device 0

reply_body-id_example :
    (id_lo : ℕ) × (id_hi : ℕ) × (reply_body 0 0x1234 ≡ h4_vendor ∷ 0 ∷ id_lo ∷ id_hi ∷ [])
    × (id_lo < 256)
    × (id_hi < 256)
    × (id_lo + 256 * id_hi ≡ 0x1234 % 2 ^ 16)
reply_body-id_example = reply_body-id 0 0x1234

replaced_admits_example :
    let ctx' = replaced list_wdf kernel started (transfer 9 0) 8 0 in
    (ctx'.current_radio_id ≡ 2) × ((admit ctx').0 ≡ true) × ((admit (evt_d0_exit 1 ctx')).0 ≡ true)
replaced_admits_example =
    replaced_admits list_wdf kernel started (transfer 9 0) 8 0 refl (omega arith) refl (omega arith)

abbrev faulty : FdoContext ListQueue
faulty = record device { fail_alloc_one_in = 3 }

allocations-failures_example : (allocations 10 faulty).0 + 0 ≡ 3
allocations-failures_example = allocations-failures 10 faulty (omega arith) (omega arith)
