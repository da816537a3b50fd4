-- ===== src/Tests/Runs.antt =====
-- Tests by evaluation.
use windows_vhci_driver.Calls.{perform, run}
use windows_vhci_driver.Client.{received}
use windows_vhci_driver.Client.Run.{all_sent}
use windows_vhci_driver.Context.{Completion, events}
use windows_vhci_driver.Fdo.Deliver.{complete_read, park_for_read, deliver_to_stack}
use windows_vhci_driver.Fdo.Dispatch.{
  write_hci_case, take_or_park, read_hci_case, bthx_case, bthx_dispatch,
}
use windows_vhci_driver.Kernel.{list_wdf, Status}
use windows_vhci_driver.Pdo.{evt_d0_entry}
use windows_vhci_driver.Prelude.{ℕ, ◌≡◌, refl, List, [], ◌∷◌}
use windows_vhci_driver.Stream.{packet, delivered}
use windows_vhci_driver.Tests.{device, started, bring_up, traffic, client_traffic}
use windows_vhci_driver.User.Control.{create_radio, handle_control}
use windows_vhci_driver.User.Handle.{evt_device_file_create}
use windows_vhci_driver.User.ToStack.{take_or_park_for_stack}
use windows_vhci_driver.User.ToUser.{
  hand_to_reader, hand_from_backlog, park_for_user, queue_to_user, evt_io_read,
}
use windows_vhci_driver.User.Write.{write_packet, dispatch_write}

abbrev statuses : List Completion → List (ℕ × Status)
statuses [] = []
statuses (c ∷ cs) = (c.request.id, c.status) ∷ statuses cs

-- The write before D0 is refused, the first event waits for a read and the second finds one.
bring_up-statuses :
    statuses (run list_wdf device bring_up).1
    ≡ (1, Status.success)
      ∷ (2, Status.success)
      ∷ (3, Status.device_not_ready)
      ∷ (4, Status.success)
      ∷ (5, Status.success)
      ∷ (6, Status.success)
      ∷ (7, Status.success)
      ∷ []
unfolding run evt_device_file_create dispatch_write write_packet handle_control create_radio
    queue_to_user park_for_user evt_d0_entry deliver_to_stack park_for_read complete_read
    bthx_dispatch bthx_case read_hci_case take_or_park take_or_park_for_stack
bring_up-statuses = refl

traffic_events : delivered events (run list_wdf started traffic).1 ≡ packet 4 (14 ∷ []) ∷ []
unfolding run dispatch_write write_packet deliver_to_stack park_for_read complete_read bthx_dispatch
    bthx_case read_hci_case take_or_park take_or_park_for_stack
traffic_events = refl

client_traffic-received :
    received (run list_wdf device client_traffic).1
    ≡ (0xFF ∷ 0xFF ∷ 0 ∷ 1 ∷ 0 ∷ []) ∷ (1 ∷ 3 ∷ 12 ∷ 0 ∷ []) ∷ []
unfolding run evt_device_file_create dispatch_write write_packet handle_control create_radio
    queue_to_user park_for_user hand_to_reader hand_from_backlog evt_io_read bthx_dispatch bthx_case
    write_hci_case
client_traffic-received = refl

client_traffic-all_sent :
    all_sent list_wdf device client_traffic
    ≡ (0xFF ∷ 0xFF ∷ 0 ∷ 1 ∷ 0 ∷ []) ∷ (1 ∷ 3 ∷ 12 ∷ 0 ∷ []) ∷ (1 ∷ 1 ∷ 16 ∷ 0 ∷ []) ∷ []
unfolding run perform evt_device_file_create dispatch_write write_packet handle_control create_radio
    queue_to_user park_for_user hand_to_reader hand_from_backlog evt_io_read bthx_dispatch bthx_case
    write_hci_case
client_traffic-all_sent = refl
