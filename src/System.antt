-- ===== src/System.antt =====
-- The driver as a whole. Its callbacks run in parallel on several threads, and share the FDO
-- context, which they touch only in regions that hold Lock. A step is one such region of
-- winvhci/user.c, winvhci/fdo.c or winvhci/pdo.c, or a move of the framework on one of the queues;
-- a run is any interleaving of steps.
pub mod Rule
pub mod Handlers
pub mod Consistent
use windows_vhci_driver.Context.{FdoContext, Channel, read_queue, set_read_queue}
use windows_vhci_driver.Fdo.Deliver.{deliver_to_stack}
use windows_vhci_driver.Fdo.Dispatch.{set_version_case, count_write_hci, count_ioctl}
use windows_vhci_driver.Kernel.{Wdf, Kernel, Request, Status}
use windows_vhci_driver.Pdo.{evt_d0_entry, evt_d0_exit, pdo_evt_cleanup, pdo_forward_to_parent}
use windows_vhci_driver.Pdo.Create.{PdoCalls, evt_child_list_create_device}
use windows_vhci_driver.Prelude.{ℕ, ◌≡◌, some, List, length}
use windows_vhci_driver.User.Backlogs.{purge_backlogs}
use windows_vhci_driver.User.Control.{claim_radio, unclaim_radio}
use windows_vhci_driver.User.Handle.{
  evt_device_file_create, release_owner, purge_reads, start_reads,
}
use windows_vhci_driver.User.ToStack.{take_or_park_for_stack}
use windows_vhci_driver.User.ToUser.{queue_to_user, evt_io_read}
use windows_vhci_driver.User.Write.{admit}

module _ {Queue : Type 0} (w : Wdf Queue) where
  pub data Step (s t : FdoContext Queue) : Type 0 where
    queues_to_user :
        (k : Kernel) (type : ℕ) (body : List ℕ) → t ≡ (queue_to_user w k s type body).0 → Step s t
    reads_as_user : (k : Kernel) (r : Request) → t ≡ (evt_io_read w k s r).0 → Step s t
    delivers_to_stack :
        (k : Kernel) (type : ℕ) (body : List ℕ)
        → t ≡ (deliver_to_stack w k s type body).1
        → Step s t
    takes_or_parks :
        (ch : Channel) (r : Request) → t ≡ (take_or_park_for_stack w s ch r).2 → Step s t
    claims_radio : (radio_id : ℕ) → claim_radio s ≡ some (radio_id, t) → Step s t
    unclaims_radio : t ≡ unclaim_radio s → Step s t
    admits : t ≡ (admit s).1 → Step s t
    opens_handle : (r : Request) (file : ℕ) → t ≡ (evt_device_file_create s r file).0 → Step s t
    releases_owner : t ≡ (release_owner s).1 → Step s t
    purges_reads : (ch : Channel) → t ≡ purge_reads w ch s → Step s t
    starts_reads : (ch : Channel) → t ≡ start_reads w ch s → Step s t
    purges_backlogs : t ≡ purge_backlogs s → Step s t
    starts_radio : (radio_id : ℕ) → t ≡ evt_d0_entry radio_id s → Step s t
    stops_radio : (radio_id : ℕ) → t ≡ evt_d0_exit radio_id s → Step s t
    counts_ioctl : t ≡ count_ioctl s → Step s t
    counts_write_hci : t ≡ count_write_hci s → Step s t
    sets_version :
        (k : Kernel) (r : Request) (length : ℕ) → t ≡ (set_version_case k s r length).0 → Step s t
    counts_pdo_request :
        (status : Status) (r : Request) → t ≡ (pdo_forward_to_parent status s r).0 → Step s t
    creates_pdo : (c : PdoCalls) → t ≡ (evt_child_list_create_device c s).1 → Step s t
    cleans_up_pdo : t ≡ pdo_evt_cleanup s → Step s t
    drops_user_read :
        (i : ℕ) → t ≡ record s { user_read_queue = w.cancel i s.user_read_queue } → Step s t
    drops_stack_read :
        (i : ℕ) (ch : Channel) → t ≡ set_read_queue ch (w.cancel i (read_queue ch s)) s → Step s t

  pub data Reach (s : FdoContext Queue) : FdoContext Queue → Type 0 where
    here : Reach s s
    next : {t u : FdoContext Queue} → Reach s t → Step t u → Reach s u
