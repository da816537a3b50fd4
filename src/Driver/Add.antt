-- ===== src/Driver/Add.antt =====
-- The outcome of a device's setup, by the answers of the framework alone.
-- The statuses of each part, in the order in which it asks for them.
use windows_vhci_driver.Context.{FdoContext}
use windows_vhci_driver.Driver.{
  SetupCalls, fdo_create_queues, user_create_queues, fresh_context, evt_device_add,
}
use windows_vhci_driver.Fdo.Dispatch.{read_ulong, or_default}
use windows_vhci_driver.Kernel.{Knob, Kernel, Status, nt_success}
use windows_vhci_driver.Prelude.{
  ℕ, ◌≡◌, refl, sym, subst, false, ◌&&◌, Option, none, some, List, [], ◌∷◌, ◌++◌, arith,
  if◌then◌else◌,
}
use windows_vhci_driver.Result.{Result, returned, refused, ◌>>=◌, ◌>>◌, check}

abbrev pub fdo_statuses : {Queue : Type 0} → SetupCalls Queue → List Status
fdo_statuses c = c.bthx_io_queue ∷ c.read_event_queue.0 ∷ c.read_data_queue.0 ∷ []

abbrev pub user_statuses : {Queue : Type 0} → SetupCalls Queue → List Status
user_statuses c = c.default_queue ∷ c.user_read_queue.0 ∷ c.create_symbolic_link ∷ []

abbrev pub setup_statuses : {Queue : Type 0} → SetupCalls Queue → List Status
setup_statuses c = c.device_create ∷ c.spin_lock_create ∷ fdo_statuses c ++ user_statuses c

abbrev pub first_failure : List Status → Option Status
first_failure [] = none
first_failure (s ∷ ss) = if nt_success s then first_failure ss else some s

-- A result that stands unless something failed before.
abbrev pub unless_failed : {A : Type 0} → Option Status → A → Result A
unless_failed none a = returned a
unless_failed (some s) a = refused s

-- What the knob is read as: 0 unless each step of the registry read succeeds.
abbrev pub knob_value : Kernel → ℕ
knob_value k =
    if k.passive_level
      && nt_success k.open_key
      && nt_success (k.query_ulong Knob.fail_alloc_one_in).0
    then (k.query_ulong Knob.fail_alloc_one_in).1
    else 0

knob_value_lem : (k : Kernel) → or_default (read_ulong k Knob.fail_alloc_one_in) 0 ≡ knob_value k
unfolding read_ulong
knob_value_lem k = ground arith

first_failure-append :
    (xs ys : List Status)
    → first_failure (xs ++ ys)
      ≡ elim (first_failure xs) [ none ↦ first_failure ys | some s ↦ some s ]
first_failure-append [] ys = refl
first_failure-append (x ∷ xs) ys = ground (arith, first_failure-append xs ys)

-- Two checks and two parts, each of which stops the rest when it fails.
chain-unless_failed :
    {A B C : Type 0} (s t : Status) (f u : Option Status) (a : A) (b : B) (g : A → B → C)
    → check s
        >> (check t >> (unless_failed f a >>= λ x. unless_failed u b >>= λ y. returned (g x y)))
      ≡ unless_failed
          (if nt_success s
            then (if nt_success t then (elim f [ none ↦ u | some e ↦ some e ]) else some t)
            else some s)
          (g a b)
chain-unless_failed s t none none a b g = ground arith
chain-unless_failed s t none (some y) a b g = ground arith
chain-unless_failed s t (some x) u a b g = ground arith

module _ {Queue : Type 0} where
  fdo_create_queues-unless_failed :
      (k : Kernel) (c : SetupCalls Queue)
      → fdo_create_queues k c
        ≡ unless_failed (first_failure (fdo_statuses c)) (record {
          knob = knob_value k;
          event = c.read_event_queue.1;
          acl = c.read_data_queue.1;
        })
  unfolding fdo_create_queues
  fdo_create_queues-unless_failed k c = rw (knob_value_lem k) (ground arith)

  user_create_queues-unless_failed :
      (c : SetupCalls Queue)
      → user_create_queues c ≡ unless_failed (first_failure (user_statuses c)) c.user_read_queue.1
  unfolding user_create_queues
  user_create_queues-unless_failed c = ground arith

  evt_device_add-unless_failed :
      (k : Kernel) (c : SetupCalls Queue)
      → evt_device_add k c
        ≡ unless_failed (first_failure (setup_statuses c)) (
            fresh_context c.read_event_queue.1 c.read_data_queue.1 c.user_read_queue.1
              (knob_value k))
  unfolding evt_device_add
  evt_device_add-unless_failed k c =
      rw
        (
          fdo_create_queues-unless_failed k c,
          user_create_queues-unless_failed c,
          first_failure-append (fdo_statuses c) (user_statuses c),
        )
        (chain-unless_failed c.device_create c.spin_lock_create (first_failure (fdo_statuses c))
          (first_failure (user_statuses c))
          (record { knob = knob_value k; event = c.read_event_queue.1; acl = c.read_data_queue.1 })
          c.user_read_queue.1 (λ q r. fresh_context q.event q.acl r q.knob))

module _ {Queue : Type 0} where
  -- The context of a device that has just been set up, field by field.
  pub record IsStart (k : Kernel) (c : SetupCalls Queue) (s : FdoContext Queue) : Type 0 where
    pub queues :
        (s.read_event_queue ≡ c.read_event_queue.1)
        × (s.read_data_queue ≡ c.read_data_queue.1)
        × (s.user_read_queue ≡ c.user_read_queue.1)
    pub lists :
        (s.host_to_ctrl_list ≡ []) × (s.pending_event_list ≡ []) × (s.pending_data_list ≡ [])
    pub no_client : s.owner ≡ none
    pub no_radio : (s.radio_present ≡ false) × (s.radio_started ≡ false)
    pub first_id : (s.current_radio_id ≡ 0) × (s.next_radio_id ≡ 1)
    pub knob : (s.fail_alloc_one_in ≡ knob_value k) × (s.alloc_seq ≡ 0) × (s.bthx_version ≡ 0)
    pub depths :
        (s.host_to_ctrl_count ≡ 0) × (s.pending_event_count ≡ 0) × (s.pending_data_count ≡ 0)
    pub peaks : (s.host_to_ctrl_peak ≡ 0) × (s.pending_event_peak ≡ 0) × (s.pending_data_peak ≡ 0)
    pub losses : (s.drops_no_client ≡ 0) × (s.drops_alloc_failed ≡ 0) × (s.writes_no_radio ≡ 0)
    pub totals : (s.writes_total ≡ 0) × (s.queued_to_user_total ≡ 0) × (s.radios_alive ≡ 0)
    pub requests :
        (s.pdo_request_count ≡ 0)
        × (s.ioctl_count ≡ 0)
        × (s.write_hci_count ≡ 0)
        × (s.pended_event_reads ≡ 0)
        × (s.pended_data_reads ≡ 0)

  fresh_context-IsStart :
      (k : Kernel) (c : SetupCalls Queue)
      → IsStart k c (
          fresh_context c.read_event_queue.1 c.read_data_queue.1 c.user_read_queue.1 (knob_value k))
  fresh_context-IsStart k c = ground arith

  -- What either end of a setup says of the framework's answers.
  abbrev pub Outcome : Kernel → SetupCalls Queue → Result (FdoContext Queue) → Type 0
  Outcome k c (returned s) = (first_failure (setup_statuses c) ≡ none) × IsStart k c s
  Outcome k c (refused e) = first_failure (setup_statuses c) ≡ some e

  unless_failed-Outcome :
      (k : Kernel) (c : SetupCalls Queue) (o : Option Status) (s : FdoContext Queue)
      → first_failure (setup_statuses c) ≡ o
      → IsStart k c s
      → Outcome k c (unless_failed o s)
  unless_failed-Outcome k c none s e v = (e, v)
  unless_failed-Outcome k c (some x) s e v = e

  -- A setup fails with a status only if it is the first failing one among the framework's answers,
  -- in the order of the calls; it succeeds only if none of them fails, and then the context has
  -- the three created queues, no packet, client or radio, 1 as the next radio's id, the fault
  -- knob as the registry has it or 0 when it cannot be read, and 0 in every other number.
  pub evt_device_add-Outcome :
      (k : Kernel) (c : SetupCalls Queue) → Outcome k c (evt_device_add k c)
  evt_device_add-Outcome k c =
      subst (Outcome k c) (sym (evt_device_add-unless_failed k c))
        (unless_failed-Outcome k c _ _ refl (fresh_context-IsStart k c))
