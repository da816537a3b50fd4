-- ===== src/System/Rule.antt =====
-- The rendezvous rule and the counters, on every interleaving from a device's start.
use windows_vhci_driver.Context.{FdoContext}
use windows_vhci_driver.Driver.{
  SetupCalls, fdo_create_queues, user_create_queues, fresh_context, evt_device_add,
}
use windows_vhci_driver.Kernel.{Wdf, Kernel, IsFifo}
use windows_vhci_driver.Prelude.{
  ℕ, ◌%◌, ◌^◌, ◌≤◌, ◌≡◌, refl, subst, ◌⊎◌, inl, inr, [], arith, length,
}
use windows_vhci_driver.Rendezvous.{IsConsistent}
use windows_vhci_driver.Rendezvous.Backlog.{IsBacklog, count-le-peak}
use windows_vhci_driver.Result.{returned, check, >>=-eq-returned, returned-injective}
use windows_vhci_driver.System.{Reach}
use windows_vhci_driver.System.Consistent.{Reach-IsConsistent}
use windows_vhci_driver.User.Stats.{snapshot}

module _ {Queue : Type 0} (w : Wdf Queue) (fifo : IsFifo w) where
  fresh-IsConsistent :
      (event_queue data_queue reader_queue : Queue) (knob : ℕ)
      → IsConsistent w (fresh_context event_queue data_queue reader_queue knob)
  fresh-IsConsistent event_queue data_queue reader_queue knob = record {
    user = none_queued reader_queue;
    event = none_queued event_queue;
    acl = none_queued data_queue;
  }
    where
      none_queued : (q : Queue) → IsBacklog w q [] 0 0
      none_queued q = record {
        counted = omega arith;
        peaked = inl (omega arith);
        fits = omega arith;
        meets = inr refl;
      }

  pub evt_device_add-IsConsistent :
      (k : Kernel) (c : SetupCalls Queue) (s : FdoContext Queue)
      → evt_device_add k c ≡ returned s
      → IsConsistent w s
  unfolding evt_device_add
  evt_device_add-IsConsistent k c s e =
      let (_, _, e₁) = >>=-eq-returned (check c.device_create) _ e in
      let (_, _, e₂) = >>=-eq-returned (check c.spin_lock_create) _ e₁ in
      let (q, _, e₃) = >>=-eq-returned (fdo_create_queues k c) _ e₂ in
      let (reader_queue, _, e₄) = >>=-eq-returned (user_create_queues c) _ e₃ in
      subst (IsConsistent w) (returned-injective e₄)
        (fresh-IsConsistent q.event q.acl reader_queue q.knob)

  -- From a device whose setup succeeded, whatever the interleaving of locked regions,
  -- cancellations and purges: of the client's parked reads and the packets queued for it one side
  -- is empty, and so for the stack's event reads and its data reads.
  pub rendezvous_rule :
      (k : Kernel) (c : SetupCalls Queue) {s t : FdoContext Queue}
      → evt_device_add k c ≡ returned s
      → Reach w s t
      → ((w.waiting t.user_read_queue ≡ []) ⊎ (t.host_to_ctrl_list ≡ []))
        × ((w.waiting t.read_event_queue ≡ []) ⊎ (t.pending_event_list ≡ []))
        × ((w.waiting t.read_data_queue ≡ []) ⊎ (t.pending_data_list ≡ []))
  rendezvous_rule k c {s} e r =
      let v = Reach-IsConsistent w fifo (evt_device_add-IsConsistent k c s e) r in
      (v.user.meets, v.event.meets, v.acl.meets)

  -- In every such state the statistics report each queue's true depth, modulo 2^32, and no depth
  -- above its peak.
  pub snapshot_depths :
      (k : Kernel) (c : SetupCalls Queue) {s t : FdoContext Queue}
      → evt_device_add k c ≡ returned s
      → Reach w s t
      → let stats = snapshot t in
        (stats.host_to_ctrl_count ≡ length t.host_to_ctrl_list % 2 ^ 32)
        × (stats.pending_event_count ≡ length t.pending_event_list % 2 ^ 32)
        × (stats.pending_data_count ≡ length t.pending_data_list % 2 ^ 32)
        × (stats.host_to_ctrl_count ≤ stats.host_to_ctrl_peak)
        × (stats.pending_event_count ≤ stats.pending_event_peak)
        × (stats.pending_data_count ≤ stats.pending_data_peak)
  unfolding snapshot
  snapshot_depths k c {s} e r =
      let v = Reach-IsConsistent w fifo (evt_device_add-IsConsistent k c s e) r in
      (
        v.user.counted,
        v.event.counted,
        v.acl.counted,
        count-le-peak w _ _ _ _ v.user,
        count-le-peak w _ _ _ _ v.event,
        count-le-peak w _ _ _ _ v.acl,
      )
