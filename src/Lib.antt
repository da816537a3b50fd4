-- ===== src/Lib.antt =====
-- winvhci: a model of the virtual Bluetooth HCI controller driver in winvhci/, with proofs.
--
-- The driver stands between a client process, which plays the controller through the device
-- \\.\WinVhci, and the Windows Bluetooth stack, which sends BTHX requests to the radio's PDO.
-- Packets of the client go to the stack through two independent read channels, events and ACL
-- data; packets of the stack go to the client through one queue of ReadFile requests. Each of the
-- three directions is a rendezvous of a WDF queue of parked requests and a list of packets, in
-- the one FDO context that all callbacks share under a spinlock.
--
-- Kernel        statuses, requests, WDF queues, and the answers of the kernel during one call: all
--               parameters, with the documented behaviour of the queues as the hypothesis IsFifo,
--               and a list queue that meets it
-- Context       winvhci/winvhci.h: WINVHCI_PACKET, WINVHCI_FDO_CONTEXT, WINVHCI_STATS, the bounds
--               of the wire format, WinVhciTestFailAlloc; WinVhciAllocPacket of winvhci/user.c
-- User          winvhci/user.c: Backlogs (WinVhciRadioStackDown, WinVhciPurgeBacklogs), ToUser
--               (WinVhciQueueToUser, WinVhciEvtIoRead), ToStack (WinVhciTakeOrParkForStack),
--               Control (WinVhciHandleControl), Write (WinVhciDispatchWrite), Stats
--               (WinVhciEvtIoDeviceControl), Handle (create and close of the handle)
-- Fdo           winvhci/fdo.c: Deliver (WinVhciCompleteRead, WinVhciDeliverToStack), Dispatch
--               (WinVhciBthxDispatch, WinVhciReadUlong), Setup (WinVhciEvtSelfManagedIoCleanup)
-- Pdo           winvhci/pdo.c: power callbacks, forwarding, cleanup, and creation of a PDO
-- Driver        winvhci/driver.c, WinVhciEvtDeviceAdd, with the queue setup of fdo.c and user.c;
--               Add has the outcome of the setup
-- Calls         the entry points of a device that has been set up, as one type of calls, and
--               sequences of calls
-- System        interleavings: the locked regions of all handlers as a step relation
-- Rendezvous, Stream, Client, Channels, Buffers, Requests, Refusals, Radio, Close, Faults
--               the properties, by what they are about
-- Tests         evaluations and the theorems at concrete inputs
--
-- A ULONG is a native number with its wrap-around written out. A handler takes the context and
-- returns the new one with the requests that it completed, each with the status and with what was
-- written to its buffer. A locked region is one function, and a handler composes its regions in
-- the order of the code; what a handler does outside the lock does not touch the context, but for
-- the store of BthxVersion by SET_VERSION. Loops of the source only free lists, so no fuel is
-- needed.
--
-- Not modelled: the Device, BthxIoQueue and Lock handles of the context; the freeing of a packet,
-- which is only its absence from the lists; KdPrint tracing and WinVhciLogHciPacket, which print;
-- the string identifiers and the configuration structs that are only handed to WDF; DriverEntry
-- and the driver's cleanup, which make one WDF call or none. InputBufferLength is taken to fit a
-- ULONG, as the kernel has it. The tools, the Python package, the build and test scripts are
-- outside this library.
pub mod Prelude
pub mod Kernel
pub mod Context
pub mod Fdo
pub mod User
pub mod Result
pub mod Pdo
pub mod Rendezvous
pub mod Refusals
pub mod Channels
pub mod Buffers
pub mod Requests
pub mod Driver
pub mod Calls
pub mod System
pub mod Stream
pub mod Client
pub mod Close
pub mod Faults
pub mod Radio
mod Tests
