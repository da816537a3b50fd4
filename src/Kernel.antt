-- ===== src/Kernel.antt =====
-- What winvhci/*.c use of the kernel and of WDF, none of it code of this repository: statuses,
-- requests, and the calls whose answers the driver acts on, which are parameters of the model.
mod Ntstatus
mod Irp
mod Calls
mod Held
pub use Ntstatus.*
pub use Irp.*
pub use Calls.*
pub use Held.*
