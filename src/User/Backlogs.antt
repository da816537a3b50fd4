-- ===== src/User/Backlogs.antt =====
-- winvhci/user.c: WinVhciRadioStackDown and WinVhciPurgeBacklogs. WinVhciFreeList leaves the empty
-- list and the count 0.
use windows_vhci_driver.Context.{FdoContext, Channel, events, acl, set_pending}
use windows_vhci_driver.Prelude.{ℕ, false, [], ◌==◌, if◌then◌else◌}

module _ {Queue : Type 0} where
  -- WinVhciFreeList on one of the two lists of the stack's side
  abbrev pub free_pending : Channel → FdoContext Queue → FdoContext Queue
  free_pending ch ctx = set_pending ch [] 0 ctx

  -- WinVhciFreeList on the list of the user's side
  abbrev pub free_host_to_ctrl : FdoContext Queue → FdoContext Queue
  free_host_to_ctrl ctx = record ctx { host_to_ctrl_list = []; host_to_ctrl_count = 0 }

  unfoldable pub radio_stack_down : ℕ → FdoContext Queue → FdoContext Queue
  radio_stack_down radio_id ctx =
      if radio_id == ctx.current_radio_id
      then free_pending acl (free_pending events (record ctx { radio_started = false }))
      else ctx

  unfoldable pub purge_backlogs : FdoContext Queue → FdoContext Queue
  purge_backlogs ctx = free_pending acl (free_pending events (free_host_to_ctrl ctx))
