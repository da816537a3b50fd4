-- ===== src/Rendezvous/Backlog.antt =====
-- One backlog: the queue of parked requests, the list of packets, its count and its peak.
use windows_vhci_driver.Context.{Packet, take_parked}
use windows_vhci_driver.Kernel.{Wdf, Retrieves, IsFifo, Request}
use windows_vhci_driver.Prelude.{
  ℕ, ◌-◌, ◌%◌, ◌^◌, ◌≤◌, ◌<◌, ◌≡◌, refl, subst, ◌⊎◌, inl, inr, none, some, List, [], ◌∷◌, ◌++◌,
  arith, length, length-append, ltb, if◌then◌else◌, inc32, dec32,
}

module _ {Queue : Type 0} (w : Wdf Queue) where
  pub record IsBacklog (q : Queue) (ps : List Packet) (count peak : ℕ) : Type 0 where
    pub counted : count ≡ length ps % 2 ^ 32
    pub peaked : (length ps ≤ peak) ⊎ (peak ≡ 2 ^ 32 - 1)
    pub fits : peak < 2 ^ 32
    pub meets : (w.waiting q ≡ []) ⊎ (ps ≡ [])

  abbrev pub raised : ℕ → ℕ → ℕ
  raised peak count = if ltb peak count then count else peak

  pub IsBacklog-append :
      (q : Queue) (ps : List Packet) (p : Packet) (count peak : ℕ)
      → IsBacklog q ps count peak
      → w.waiting q ≡ []
      → IsBacklog q (ps ++ (p ∷ [])) (inc32 count) (raised peak (inc32 count))
  IsBacklog-append q ps p count peak b e = record {
    counted = omega (arith, length-append ps (p ∷ []), b.counted);
    peaked = ground (arith, length-append ps (p ∷ []));
    fits = ground arith;
    meets = inl e;
  }

  pub IsBacklog-take :
      (q : Queue) (ps : List Packet) (p : Packet) (count peak : ℕ)
      → IsBacklog q (p ∷ ps) count peak
      → IsBacklog q ps (dec32 count) peak
  IsBacklog-take q ps p count peak b = record {
    counted = omega (arith, b.counted);
    peaked = ground arith;
    fits = b.fits;
    meets = ground arith;
  }

  pub IsBacklog-free :
      (q : Queue) (ps : List Packet) (count peak : ℕ)
      → IsBacklog q ps count peak
      → IsBacklog q [] 0 peak
  IsBacklog-free q ps count peak b = record {
    counted = omega arith;
    peaked = inl (omega arith);
    fits = b.fits;
    meets = inr refl;
  }

  -- Parking at an empty list, whatever the queue holds then.
  pub IsBacklog-park :
      (q q' : Queue) (count peak : ℕ) → IsBacklog q [] count peak → IsBacklog q' [] count peak
  IsBacklog-park q q' count peak b = record {
    counted = b.counted;
    peaked = b.peaked;
    fits = b.fits;
    meets = inr refl;
  }

  -- A queue that holds nothing meets any list.
  pub IsBacklog-empty :
      (q q' : Queue) (ps : List Packet) (count peak : ℕ)
      → w.waiting q' ≡ []
      → IsBacklog q ps count peak
      → IsBacklog q' ps count peak
  IsBacklog-empty q q' ps count peak e b = record {
    counted = b.counted;
    peaked = b.peaked;
    fits = b.fits;
    meets = inl e;
  }

  -- A queue that holds the same requests.
  pub IsBacklog-same :
      (q q' : Queue) (ps : List Packet) (count peak : ℕ)
      → w.waiting q' ≡ w.waiting q
      → IsBacklog q ps count peak
      → IsBacklog q' ps count peak
  IsBacklog-same q q' ps count peak e b = record {
    counted = b.counted;
    peaked = b.peaked;
    fits = b.fits;
    meets = rw e b.meets;
  }

  pub count-le-peak :
      (q : Queue) (ps : List Packet) (count peak : ℕ) → IsBacklog q ps count peak → count ≤ peak
  count-le-peak q ps count peak b = omega (arith, b.counted, b.peaked)

  module _ (fifo : IsFifo w) where
    pub retrieve_next-none : (q : Queue) → w.retrieve_next q ≡ none → w.waiting q ≡ []
    retrieve_next-none q e = subst (Retrieves w q) e (fifo.retrieves q)

    pub retrieve_next-some :
        (q q' : Queue) (r : Request)
        → w.retrieve_next q ≡ some (r, q')
        → w.waiting q ≡ r ∷ w.waiting q'
    retrieve_next-some q q' r e = subst (Retrieves w q) e (fifo.retrieves q)

    pub take_parked-oldest :
        (q q' : Queue) (r : Request) (count : ℕ)
        → take_parked w q count ≡ some (r, q')
        → w.waiting q ≡ r ∷ w.waiting q'
    take_parked-oldest q q' r count e = ground (arith, retrieve_next-some q q' r)

    -- A sender that finds no request finds that none is waiting.
    pub take_parked-none :
        (q : Queue) (ps : List Packet) (count peak : ℕ)
        → IsBacklog q ps count peak
        → take_parked w q count ≡ none
        → w.waiting q ≡ []
    take_parked-none q ps count peak b e = ground (arith, retrieve_next-none q)

    -- A sender that finds a request finds the oldest, and no packet queued ahead.
    pub take_parked-some :
        (q q' : Queue) (r : Request) (ps : List Packet) (count peak : ℕ)
        → IsBacklog q ps count peak
        → take_parked w q count ≡ some (r, q')
        → (w.waiting q ≡ r ∷ w.waiting q') × (ps ≡ []) × IsBacklog q' ps count peak
    take_parked-some q q' r ps count peak b e =
        let (waits, none_ahead) = oldest in
        (
          waits,
          none_ahead,
          record { counted = b.counted; peaked = b.peaked; fits = b.fits; meets = inr none_ahead },
        )
      where
        oldest : (w.waiting q ≡ r ∷ w.waiting q') × (ps ≡ [])
        oldest = ground (arith, retrieve_next-some q q' r)
