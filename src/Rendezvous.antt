-- ===== src/Rendezvous.antt =====
-- The rendezvous rule at the top of winvhci/user.c: of the packets and the requests that meet at a
-- backlog, one side is always empty; with the counts and peaks that go with a backlog.
pub mod Backlog
pub mod User
pub mod Stack
use windows_vhci_driver.Context.{FdoContext, acl}
use windows_vhci_driver.Kernel.{Wdf}
use windows_vhci_driver.Rendezvous.Backlog.{IsBacklog}

module _ {Queue : Type 0} (w : Wdf Queue) where
  pub record IsConsistent (ctx : FdoContext Queue) : Type 0 where
    pub user :
        IsBacklog w ctx.user_read_queue ctx.host_to_ctrl_list ctx.host_to_ctrl_count
          ctx.host_to_ctrl_peak
    pub event :
        IsBacklog w ctx.read_event_queue ctx.pending_event_list ctx.pending_event_count
          ctx.pending_event_peak
    pub acl :
        IsBacklog w ctx.read_data_queue ctx.pending_data_list ctx.pending_data_count
          ctx.pending_data_peak
