-- ===== src/Tests.antt =====
-- Each theorem with conditions at a concrete device, and the outputs of the operations there.
mod Device
mod Budget
mod Counting
mod Pages
mod Faults
mod Owners
mod Buffers
mod Leases
mod Batches
mod Allocations
mod Transfers
mod References
