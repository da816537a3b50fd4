-- ===== src/System/Consistent.antt =====
-- Every step keeps the context consistent, so every interleaving of the callbacks does.
use windows_vhci_driver.Context.{
  Packet, FdoContext, Channel, events, acl, channel_of, read_queue, set_read_queue,
}
use windows_vhci_driver.Fdo.Deliver.{deliver_to_stack}
use windows_vhci_driver.Fdo.Dispatch.{set_version_case}
use windows_vhci_driver.Kernel.{Wdf, IsFifo}
use windows_vhci_driver.Pdo.{evt_d0_entry, evt_d0_exit, pdo_evt_cleanup, pdo_forward_to_parent}
use windows_vhci_driver.Pdo.Create.{evt_child_list_create_device}
use windows_vhci_driver.Prelude.{ℕ, List, arith, length, remove_at-nil}
use windows_vhci_driver.Rendezvous.{IsConsistent}
use windows_vhci_driver.Rendezvous.Backlog.{IsBacklog}
use windows_vhci_driver.Rendezvous.Stack.{
  deliver_on-IsConsistent, take_or_park-IsConsistent, radio_stack_down-IsConsistent,
  purge_backlogs-IsConsistent, purge_reads-IsConsistent, start_reads-IsConsistent,
}
use windows_vhci_driver.Rendezvous.User.{queue_to_user-IsConsistent, evt_io_read-IsConsistent}
use windows_vhci_driver.System.{
  Step, queues_to_user, reads_as_user, delivers_to_stack, takes_or_parks, claims_radio,
  unclaims_radio, admits, opens_handle, releases_owner, purges_reads, starts_reads, purges_backlogs,
  starts_radio, stops_radio, counts_ioctl, counts_write_hci, sets_version, counts_pdo_request,
  creates_pdo, cleans_up_pdo, drops_user_read, drops_stack_read, Reach, here, next,
}
use windows_vhci_driver.User.Control.{claim_radio}
use windows_vhci_driver.User.Handle.{evt_device_file_create, release_owner}
use windows_vhci_driver.User.Write.{admit}

module _ {Queue : Type 0} (w : Wdf Queue) where
  module _ (fifo : IsFifo w) where
    IsBacklog-cancel :
        (i : ℕ) (q : Queue) (ps : List Packet) (count peak : ℕ)
        → IsBacklog w q ps count peak
        → IsBacklog w (w.cancel i q) ps count peak
    IsBacklog-cancel i q ps count peak b =
        ground (arith, fifo.cancels i q, remove_at-nil i (w.waiting q))

    cancel-IsConsistent :
        (i : ℕ) (ch : Channel) (s : FdoContext Queue)
        → IsConsistent w s
        → IsConsistent w (set_read_queue ch (w.cancel i (read_queue ch s)) s)
    cancel-IsConsistent i events s c = record {
      user = c.user;
      event = IsBacklog-cancel i _ _ _ _ c.event;
      acl = c.acl;
    }
    cancel-IsConsistent i acl s c = record {
      user = c.user;
      event = c.event;
      acl = IsBacklog-cancel i _ _ _ _ c.acl;
    }

    pub Step-IsConsistent :
        {s t : FdoContext Queue} → Step w s t → IsConsistent w s → IsConsistent w t
    unfolding deliver_to_stack claim_radio admit evt_device_file_create release_owner evt_d0_entry
        evt_d0_exit evt_child_list_create_device set_version_case pdo_forward_to_parent
        pdo_evt_cleanup
    Step-IsConsistent {s} (queues_to_user k type body e) c =
        rw e (queue_to_user-IsConsistent w fifo k s type body c)
    Step-IsConsistent {s} (reads_as_user k r e) c = rw e (evt_io_read-IsConsistent w fifo k s r c)
    Step-IsConsistent {s} (delivers_to_stack k type body e) c =
        rw e (deliver_on-IsConsistent w fifo k (channel_of type) s type body c)
    Step-IsConsistent {s} (takes_or_parks ch r e) c =
        rw e (take_or_park-IsConsistent w fifo s ch r c)
    Step-IsConsistent (claims_radio radio_id e) c = ground arith
    Step-IsConsistent (unclaims_radio e) c = ground arith
    Step-IsConsistent (admits e) c = ground arith
    Step-IsConsistent (opens_handle r file e) c = ground arith
    Step-IsConsistent (releases_owner e) c = ground arith
    Step-IsConsistent {s} (purges_reads ch e) c = rw e (purge_reads-IsConsistent w fifo ch s c)
    Step-IsConsistent {s} (starts_reads ch e) c = rw e (start_reads-IsConsistent w fifo ch s c)
    Step-IsConsistent {s} (purges_backlogs e) c = rw e (purge_backlogs-IsConsistent w fifo s c)
    Step-IsConsistent (starts_radio radio_id e) c = ground arith
    Step-IsConsistent {s} (stops_radio radio_id e) c =
        rw e (radio_stack_down-IsConsistent w fifo radio_id s c)
    Step-IsConsistent (counts_ioctl e) c = ground arith
    Step-IsConsistent (counts_write_hci e) c = ground arith
    Step-IsConsistent (sets_version k r length e) c = ground arith
    Step-IsConsistent (counts_pdo_request status r e) c = ground arith
    Step-IsConsistent (creates_pdo pdo_calls e) c = ground arith
    Step-IsConsistent (cleans_up_pdo e) c = ground arith
    Step-IsConsistent (drops_user_read i e) c =
        rw e (record { user = IsBacklog-cancel i _ _ _ _ c.user; event = c.event; acl = c.acl })
    Step-IsConsistent {s} (drops_stack_read i ch e) c = rw e (cancel-IsConsistent i ch s c)

    pub Reach-IsConsistent :
        {s t : FdoContext Queue} → IsConsistent w s → Reach w s t → IsConsistent w t
    Reach-IsConsistent c here = c
    Reach-IsConsistent c (next r st) = Step-IsConsistent st (Reach-IsConsistent c r)
