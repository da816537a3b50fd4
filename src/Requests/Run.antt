-- ===== src/Requests/Run.antt =====
-- The account of requests over any sequence of calls.
-- The request that a call is given. One that the PDO forwards is given again to the BTHX queue.
use windows_vhci_driver.Calls.{
  Call, writes, reads, ioctls, opens, closes, enters_d0, exits_d0, cancels_user_read,
  cancels_stack_read, asks_stats, forwards_up, adds_pdo, removes_pdo, tears_down, perform, run,
}
use windows_vhci_driver.Context.{FdoContext, events, acl, read_queue}
use windows_vhci_driver.Fdo.Setup.{evt_self_managed_io_cleanup}
use windows_vhci_driver.Kernel.{Wdf, IsFifo, Request, nt_success}
use windows_vhci_driver.Pdo.{evt_d0_entry, evt_d0_exit, pdo_evt_cleanup, pdo_forward_to_parent}
use windows_vhci_driver.Pdo.Create.{evt_child_list_create_device}
use windows_vhci_driver.Prelude.{
  ℕ, zero, suc, ◌+◌, ◌≡◌, List, [], ◌∷◌, arith, remove_at, if◌then◌else◌,
}
use windows_vhci_driver.Requests.{is_request, tally, finished, finished-append, parked, held_by}
use windows_vhci_driver.Requests.Entry.{dispatch_write-Accounts, bthx_dispatch-Accounts}
use windows_vhci_driver.Requests.Serve.{evt_io_read-Accounts}
use windows_vhci_driver.User.Backlogs.{radio_stack_down, purge_backlogs}
use windows_vhci_driver.User.Handle.{evt_device_file_create, evt_file_close}
use windows_vhci_driver.User.Stats.{evt_io_device_control}

abbrev pub given_by : ℕ → Call → ℕ
given_by i (writes k r) = is_request i r
given_by i (reads k r) = is_request i r
given_by i (ioctls k r out_length in_length code) = is_request i r
given_by i (opens r file) = is_request i r
given_by i (asks_stats k r len code) = is_request i r
given_by i (forwards_up status r) = if nt_success status then 0 else is_request i r
given_by i _ = 0

abbrev pub all_given : ℕ → List Call → ℕ
all_given i [] = 0
all_given i (c ∷ cs) = given_by i c + all_given i cs

-- Whether the j-th request has the id.
abbrev pub tally_at : ℕ → ℕ → List Request → ℕ
tally_at i j [] = 0
tally_at i zero (r ∷ rs) = is_request i r
tally_at i (suc j) (r ∷ rs) = tally_at i j rs

tally-remove_at :
    (i j : ℕ) (rs : List Request) → tally i (remove_at j rs) + tally_at i j rs ≡ tally i rs
tally-remove_at i j [] = omega arith
tally-remove_at i zero (r ∷ rs) = omega arith
tally-remove_at i (suc j) (r ∷ rs) = omega (arith, tally-remove_at i j rs)

module _ {Queue : Type 0} (w : Wdf Queue) where
  -- The requests that the framework cancels: one, or at a close and at the teardown all of the two BTHX queues.
  abbrev pub dropped : ℕ → FdoContext Queue → Call → ℕ
  dropped i ctx closes = parked w i ctx.read_event_queue + parked w i ctx.read_data_queue
  dropped i ctx tears_down = parked w i ctx.read_event_queue + parked w i ctx.read_data_queue
  dropped i ctx (cancels_user_read j) = tally_at i j (w.waiting ctx.user_read_queue)
  dropped i ctx (cancels_stack_read ch j) = tally_at i j (w.waiting (read_queue ch ctx))
  dropped i ctx _ = 0

  abbrev pub all_dropped : ℕ → FdoContext Queue → List Call → ℕ
  all_dropped i ctx [] = 0
  all_dropped i ctx (c ∷ cs) = dropped i ctx c + all_dropped i (perform w ctx c).0 cs

  module _ (fifo : IsFifo w) where
    close-Accounts :
        (i : ℕ) (ctx : FdoContext Queue)
        → held_by w i (evt_file_close w ctx).1 + dropped i ctx closes ≡ held_by w i ctx
    unfolding evt_file_close purge_backlogs
    close-Accounts i ctx = ground (
      arith,
      fifo.purges ctx.read_event_queue,
      fifo.purges ctx.read_data_queue,
      fifo.starts (w.purge ctx.read_event_queue),
      fifo.starts (w.purge ctx.read_data_queue),
    )

    teardown-Accounts :
        (i : ℕ) (ctx : FdoContext Queue)
        → held_by w i (evt_self_managed_io_cleanup w ctx) + dropped i ctx tears_down
          ≡ held_by w i ctx
    unfolding evt_self_managed_io_cleanup purge_backlogs
    teardown-Accounts i ctx =
        ground (arith, fifo.purges ctx.read_event_queue, fifo.purges ctx.read_data_queue)

    cancel-Accounts :
        (i j : ℕ) (q : Queue)
        → parked w i (w.cancel j q) + tally_at i j (w.waiting q) ≡ parked w i q
    cancel-Accounts i j q = rw (fifo.cancels j q) (tally-remove_at i j (w.waiting q))

    perform_account :
        (i : ℕ) (ctx : FdoContext Queue) (c : Call)
        → let (ctx', done) = perform w ctx c in
          finished i done + held_by w i ctx' + dropped i ctx c ≡ held_by w i ctx + given_by i c
    unfolding perform evt_device_file_create evt_d0_entry evt_d0_exit radio_stack_down
        evt_io_device_control pdo_forward_to_parent evt_child_list_create_device pdo_evt_cleanup
    perform_account i ctx (writes k r) =
        omega (arith, (dispatch_write-Accounts w fifo i k ctx r).total)
    perform_account i ctx (reads k r) = omega (arith, (evt_io_read-Accounts w fifo i k ctx r).total)
    perform_account i ctx (ioctls k r out_length in_length code) =
        omega (arith, (bthx_dispatch-Accounts w fifo i k ctx r out_length in_length code).total)
    perform_account i ctx (opens r file) = ground arith
    perform_account i ctx closes = omega (arith, close-Accounts i ctx)
    perform_account i ctx (enters_d0 radio_id) = ground arith
    perform_account i ctx (exits_d0 radio_id) = ground arith
    perform_account i ctx (cancels_user_read j) =
        omega (arith, cancel-Accounts i j ctx.user_read_queue)
    perform_account i ctx (cancels_stack_read events j) =
        omega (arith, cancel-Accounts i j ctx.read_event_queue)
    perform_account i ctx (cancels_stack_read acl j) =
        omega (arith, cancel-Accounts i j ctx.read_data_queue)
    perform_account i ctx (asks_stats k r len code) = ground arith
    perform_account i ctx (forwards_up status r) = ground arith
    perform_account i ctx (adds_pdo p) = ground arith
    perform_account i ctx removes_pdo = ground arith
    perform_account i ctx tears_down = omega (arith, teardown-Accounts i ctx)

    -- Every request is accounted for, over any sequence of calls: the completions of requests with
    -- an id, the requests with the id that the three queues hold at the end, and those that the
    -- framework cancelled are together as many as the queues held at the start and the calls were
    -- given.
    pub run_account :
        (i : ℕ) (ctx : FdoContext Queue) (cs : List Call)
        → let (ctx', done) = run w ctx cs in
          finished i done + held_by w i ctx' + all_dropped i ctx cs
          ≡ held_by w i ctx + all_given i cs
    unfolding run
    run_account i ctx [] = omega arith
    run_account i ctx (c ∷ cs) =
        let (ctx', done) = perform w ctx c in
        omega (
          arith,
          perform_account i ctx c,
          run_account i ctx' cs,
          finished-append i done (run w ctx' cs).1,
        )
