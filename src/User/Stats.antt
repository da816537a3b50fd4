-- ===== src/User/Stats.antt =====
-- winvhci/user.c: WinVhciEvtIoDeviceControl, IOCTL_WINVHCI_GET_STATS.
use windows_vhci_driver.Context.{FdoContext, Stats, nothing, statistics, complete, Effect}
use windows_vhci_driver.Kernel.{Kernel, Request, Status, nt_success}
use windows_vhci_driver.Prelude.{ℕ, ◌+◌, ◌*◌, ◌^◌, not, [], ◌∷◌, ltb, ◌==◌, if◌then◌else◌}

-- sizeof(WINVHCI_STATS): thirteen ULONGs.
abbrev pub stats_size : ℕ
stats_size = 52

-- CTL_CODE(FILE_DEVICE_UNKNOWN, 0x800, METHOD_BUFFERED, FILE_READ_ACCESS)
abbrev pub ioctl_winvhci_get_stats : ℕ
ioctl_winvhci_get_stats = 0x22 * 2 ^ 16 + 1 * 2 ^ 14 + 0x800 * 2 ^ 2

module _ {Queue : Type 0} where
  unfoldable pub snapshot : FdoContext Queue → Stats
  snapshot ctx = record {
    size = stats_size;
    drops_no_client = ctx.drops_no_client;
    drops_alloc_failed = ctx.drops_alloc_failed;
    host_to_ctrl_count = ctx.host_to_ctrl_count;
    host_to_ctrl_peak = ctx.host_to_ctrl_peak;
    pending_event_count = ctx.pending_event_count;
    pending_event_peak = ctx.pending_event_peak;
    pending_data_count = ctx.pending_data_count;
    pending_data_peak = ctx.pending_data_peak;
    writes_total = ctx.writes_total;
    queued_to_user_total = ctx.queued_to_user_total;
    writes_no_radio = ctx.writes_no_radio;
    radios_alive = ctx.radios_alive;
  }

  -- The context is read only.
  unfoldable pub evt_io_device_control : Kernel → FdoContext Queue → Request → ℕ → ℕ → Effect Queue
  unfolding snapshot
  evt_io_device_control k ctx r output_buffer_length code =
      if not (code == ioctl_winvhci_get_stats)
      then (ctx, complete r Status.invalid_device_request 0 nothing ∷ [])
      else if ltb output_buffer_length stats_size
      then (ctx, complete r Status.buffer_too_small stats_size nothing ∷ [])
      else (let (status, n) = k.output_buffer r stats_size in
          if nt_success status
          then (ctx, complete r Status.success stats_size (statistics (snapshot ctx)) ∷ [])
          else (ctx, complete r status 0 nothing ∷ []))
