-- ===== src/Requests.antt =====
-- Where every request is: each is held by one of the three queues or has been completed, counted
-- by its id.
pub mod Serve
pub mod Entry
pub mod Run
use windows_vhci_driver.Context.{FdoContext, Completion, Effect, take_parked}
use windows_vhci_driver.Kernel.{Wdf, IsFifo, Request, nt_success}
use windows_vhci_driver.Prelude.{ℕ, ◌+◌, ◌≡◌, some, List, [], ◌∷◌, ◌++◌, arith, ◌==◌, if◌then◌else◌}
use windows_vhci_driver.Rendezvous.Backlog.{retrieve_next-some}

abbrev pub is_request : ℕ → Request → ℕ
is_request i r = if r.id == i then 1 else 0

-- How many of the requests have the id.
abbrev pub tally : ℕ → List Request → ℕ
tally i [] = 0
tally i (r ∷ rs) = is_request i r + tally i rs

pub tally-append : (i : ℕ) (xs ys : List Request) → tally i (xs ++ ys) ≡ tally i xs + tally i ys
tally-append i [] ys = omega arith
tally-append i (x ∷ xs) ys = omega (arith, tally-append i xs ys)

-- How many of the completions are of a request with the id.
abbrev pub finished : ℕ → List Completion → ℕ
finished i [] = 0
finished i (c ∷ cs) = is_request i c.request + finished i cs

pub finished-append :
    (i : ℕ) (xs ys : List Completion) → finished i (xs ++ ys) ≡ finished i xs + finished i ys
finished-append i [] ys = omega arith
finished-append i (x ∷ xs) ys = omega (arith, finished-append i xs ys)

module _ {Queue : Type 0} (w : Wdf Queue) where
  abbrev pub parked : ℕ → Queue → ℕ
  parked i q = tally i (w.waiting q)

  -- How many requests with the id the driver's queues hold.
  abbrev pub held_by : ℕ → FdoContext Queue → ℕ
  held_by i ctx =
      parked i ctx.user_read_queue + parked i ctx.read_event_queue + parked i ctx.read_data_queue

  -- The call completes or holds what was held before and what it was given, and nothing else.
  pub record Accounts (i : ℕ) (ctx : FdoContext Queue) (given : ℕ) (out : Effect Queue)
      : Type 0 where
    pub total : finished i out.1 + held_by i out.0 ≡ held_by i ctx + given

  module _ (fifo : IsFifo w) where
    pub parked-forward :
        (i : ℕ) (r : Request) (q : Queue)
        → parked i (w.forward r q).1 + (if nt_success (w.forward r q).0 then 0 else is_request i r)
          ≡ parked i q + is_request i r
    parked-forward i r q = ground (arith, fifo.forwards r q, tally-append i (w.waiting q) (r ∷ []))

    pub parked-take :
        (i : ℕ) (q q' : Queue) (r : Request) (count : ℕ)
        → take_parked w q count ≡ some (r, q')
        → is_request i r + parked i q' ≡ parked i q
    parked-take i q q' r count e = ground (arith, retrieve_next-some w fifo q q' r)
