-- ===== src/Kernel/Held.antt =====
-- A queue that meets the hypotheses of `IsFifo`: a list of requests, and whether it accepts.
use windows_vhci_driver.Kernel.Calls.{Wdf, Retrieves, Forwards, IsFifo}
use windows_vhci_driver.Kernel.Irp.{Request}
use windows_vhci_driver.Kernel.Ntstatus.{Status}
use windows_vhci_driver.Prelude.{
  refl, inl, inr, Bool, true, false, Option, none, some, List, [], ◌∷◌, ◌++◌, remove_at,
  if◌then◌else◌,
}

pub record ListQueue : Type 0 where
  pub held : List Request
  pub accepts : Bool

abbrev list_retrieve : List Request → Bool → Option (Request × ListQueue)
list_retrieve [] b = none
list_retrieve (r ∷ rs) b = some (r, record { held = rs; accepts = b })

abbrev list_forward : Request → ListQueue → Status × ListQueue
list_forward r q =
    if q.accepts
    then (Status.success, record q { held = q.held ++ (r ∷ []) })
    else (Status.invalid_device_state, q)

abbrev pub list_wdf : Wdf ListQueue
list_wdf = record {
  retrieve_next = λ q. list_retrieve q.held q.accepts;
  forward = list_forward;
  purge = λ q. record { held = []; accepts = false };
  start = λ q. record q { accepts = true };
  cancel = λ i q. record q { held = remove_at i q.held };
  waiting = λ q. q.held;
}

list_retrieve-Retrieves :
    (rs : List Request) (b : Bool)
    → Retrieves list_wdf (record { held = rs; accepts = b }) (list_retrieve rs b)
list_retrieve-Retrieves [] b = refl
list_retrieve-Retrieves (r ∷ rs) b = refl

list_forward-Forwards :
    (r : Request) (rs : List Request) (b : Bool)
    → Forwards list_wdf r
        (record { held = rs; accepts = b })
        (list_forward r (record { held = rs; accepts = b }))
list_forward-Forwards r rs true = inl (refl, refl)
list_forward-Forwards r rs false = inr (refl, refl)

pub list_wdf-IsFifo : IsFifo list_wdf
list_wdf-IsFifo = record {
  retrieves = λ q. list_retrieve-Retrieves q.held q.accepts;
  forwards = λ r q. list_forward-Forwards r q.held q.accepts;
  cancels = λ i q. refl;
  purges = λ q. refl;
  starts = λ q. refl;
}
