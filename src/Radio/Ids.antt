-- ===== src/Radio/Ids.antt =====
-- The ids of successive radios, over closes and new handles.
-- So many ids from one on, with the wrap-around of a ULONG.
use windows_vhci_driver.Calls.{
  Call, writes, reads, ioctls, opens, closes, enters_d0, exits_d0, cancels_user_read,
  cancels_stack_read, asks_stats, forwards_up, adds_pdo, removes_pdo, tears_down, perform,
}
use windows_vhci_driver.Context.{max_h4_packet, FdoContext, channel_of}
use windows_vhci_driver.Fdo.Deliver.{deliver_to_stack}
use windows_vhci_driver.Fdo.Setup.{evt_self_managed_io_cleanup}
use windows_vhci_driver.Kernel.{Wdf, Kernel, Request, nt_success}
use windows_vhci_driver.Pdo.{evt_d0_entry, evt_d0_exit, pdo_evt_cleanup, pdo_forward_to_parent}
use windows_vhci_driver.Pdo.Create.{evt_child_list_create_device}
use windows_vhci_driver.Prelude.{
  ℕ, zero, suc, ◌≡◌, refl, Bool, true, false, not, ◌&&◌, ◌||◌, List, [], ◌∷◌, ◌++◌, arith, length,
  ltb, ◌==◌, if◌then◌else◌, inc32,
}
use windows_vhci_driver.Radio.Keeps.{
  evt_io_read-KeepsRadio, deliver_on-KeepsRadio, bthx_dispatch-KeepsRadio, cancel-KeepsRadio,
}
use windows_vhci_driver.User.Backlogs.{radio_stack_down, purge_backlogs}
use windows_vhci_driver.User.Control.{
  reserved_bits, quirk_bits, create_radio, control_opcode, handle_control,
}
use windows_vhci_driver.User.Handle.{evt_device_file_create, evt_file_close}
use windows_vhci_driver.User.Stats.{evt_io_device_control}
use windows_vhci_driver.User.ToUser.{park_for_user, queue_to_user}
use windows_vhci_driver.User.Write.{write_data, write_packet, write_buffer, dispatch_write}

abbrev pub ids_from : ℕ → ℕ → List ℕ
ids_from n zero = []
ids_from n (suc k) = n ∷ ids_from (inc32 n) k

-- A control packet whose opcode has neither a reserved bit nor a quirk bit.
abbrev pub is_radio_packet : List ℕ → Bool
is_radio_packet (type ∷ opcode ∷ []) =
    type == 0xFF && (reserved_bits opcode == 0 && quirk_bits opcode == 0)
is_radio_packet _ = false

module _ {Queue : Type 0} where
  -- A write of such a packet, of the right length and with its buffer at hand, while no radio is
  -- present.
  abbrev pub asks_for_radio : FdoContext Queue → Call → Bool
  asks_for_radio ctx (writes k r) =
      not ctx.radio_present
      && (not (ltb r.length 2 || ltb max_h4_packet r.length)
          && (nt_success (k.input_buffer r 2).0 && is_radio_packet (k.input_buffer r 2).1))
  asks_for_radio ctx _ = false

  -- The next id is taken exactly when it is asked for.
  abbrev pub TakesInOrder : Bool → FdoContext Queue → FdoContext Queue → Type 0
  TakesInOrder false ctx ctx' =
      (ctx'.next_radio_id ≡ ctx.next_radio_id) × (ctx'.current_radio_id ≡ ctx.current_radio_id)
  TakesInOrder true ctx ctx' =
      (ctx'.next_radio_id ≡ inc32 ctx.next_radio_id) × (ctx'.current_radio_id ≡ ctx.next_radio_id)

module _ {Queue : Type 0} (w : Wdf Queue) where
  create_radio-TakesInOrder :
      (k : Kernel) (ctx : FdoContext Queue) (opcode : ℕ)
      → TakesInOrder (not ctx.radio_present) ctx (create_radio w k ctx opcode).1
  unfolding create_radio queue_to_user park_for_user
  create_radio-TakesInOrder k ctx opcode = ground arith

  write_buffer-TakesInOrder :
      (k : Kernel) (ctx : FdoContext Queue) (buffer : List ℕ)
      → TakesInOrder
          (not ctx.radio_present && is_radio_packet buffer)
          ctx
          (write_buffer w k ctx buffer).1
  unfolding write_packet write_data deliver_to_stack handle_control control_opcode
  write_buffer-TakesInOrder k ctx [] = ground arith
  write_buffer-TakesInOrder k ctx (type ∷ []) =
      ground (arith, deliver_on-KeepsRadio w k (channel_of type) ctx type [])
  write_buffer-TakesInOrder k ctx (type ∷ opcode ∷ []) = ground (
    arith,
    create_radio-TakesInOrder k ctx opcode,
    deliver_on-KeepsRadio w k (channel_of type) ctx type (opcode ∷ []),
  )
  write_buffer-TakesInOrder k ctx (type ∷ o ∷ p ∷ rest) =
      ground (arith, deliver_on-KeepsRadio w k (channel_of type) ctx type (o ∷ p ∷ rest))

  dispatch_write-TakesInOrder :
      (k : Kernel) (ctx : FdoContext Queue) (r : Request)
      → TakesInOrder (asks_for_radio ctx (writes k r)) ctx (dispatch_write w k ctx r).0
  unfolding dispatch_write
  dispatch_write-TakesInOrder k ctx r =
      ground (arith, write_buffer-TakesInOrder k ctx (k.input_buffer r 2).1)

  perform-TakesInOrder :
      (ctx : FdoContext Queue) (c : Call)
      → TakesInOrder (asks_for_radio ctx c) ctx (perform w ctx c).0
  unfolding perform evt_device_file_create evt_file_close purge_backlogs evt_d0_entry evt_d0_exit
      radio_stack_down evt_io_device_control pdo_forward_to_parent evt_child_list_create_device
      pdo_evt_cleanup evt_self_managed_io_cleanup
  perform-TakesInOrder ctx (writes k r) = dispatch_write-TakesInOrder k ctx r
  perform-TakesInOrder ctx (reads k r) = ground (arith, evt_io_read-KeepsRadio w k ctx r)
  perform-TakesInOrder ctx (ioctls k r out_length in_length code) =
      ground (arith, bthx_dispatch-KeepsRadio w k ctx r out_length in_length code)
  perform-TakesInOrder ctx (opens r file) = (refl, refl)
  perform-TakesInOrder ctx closes = (refl, refl)
  perform-TakesInOrder ctx (enters_d0 radio_id) = ground arith
  perform-TakesInOrder ctx (exits_d0 radio_id) = ground arith
  perform-TakesInOrder ctx (cancels_user_read i) = (refl, refl)
  perform-TakesInOrder ctx (cancels_stack_read ch i) = ground (arith, cancel-KeepsRadio w ctx ch i)
  perform-TakesInOrder ctx (asks_stats k r len code) = ground arith
  perform-TakesInOrder ctx (forwards_up status r) = ground arith
  perform-TakesInOrder ctx (adds_pdo p) = ground arith
  perform-TakesInOrder ctx removes_pdo = ground arith
  perform-TakesInOrder ctx tears_down = ground arith

  -- The radio's id after a call that asks for one.
  abbrev pub taken : FdoContext Queue → Call → FdoContext Queue → List ℕ
  taken ctx c ctx' = if asks_for_radio ctx c then ctx'.current_radio_id ∷ [] else []

  abbrev pub all_taken : FdoContext Queue → List Call → List ℕ
  all_taken ctx [] = []
  all_taken ctx (c ∷ cs) = taken ctx c (perform w ctx c).0 ++ all_taken (perform w ctx c).0 cs

  ids_from-taken :
      (ctx ctx' : FdoContext Queue) (c : Call) (later : List ℕ)
      → TakesInOrder (asks_for_radio ctx c) ctx ctx'
      → later ≡ ids_from ctx'.next_radio_id (length later)
      → taken ctx c ctx' ++ later ≡ ids_from ctx.next_radio_id (length (taken ctx c ctx' ++ later))
  ids_from-taken ctx ctx' c later t e = ground arith

  -- Over any sequence of calls, closes and opens included: the ids that the radios get, one for
  -- each control packet without a reserved or quirk bit in its opcode that is written while no
  -- radio is present, are consecutive, modulo 2^32, in the order of the packets, and begin with
  -- the device's next id.
  pub run-ids :
      (ctx : FdoContext Queue) (cs : List Call)
      → all_taken ctx cs ≡ ids_from ctx.next_radio_id (length (all_taken ctx cs))
  run-ids ctx [] = refl
  run-ids ctx (c ∷ cs) =
      ids_from-taken ctx (perform w ctx c).0 c (all_taken (perform w ctx c).0 cs)
        (perform-TakesInOrder ctx c) (run-ids (perform w ctx c).0 cs)
