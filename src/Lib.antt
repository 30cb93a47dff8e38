-- ===== src/Lib.antt =====
-- The VRAM side of comfy-aimdo: how model weights come into device memory, stay there while they
-- are pinned, and go again under pressure. The model is of the Linux CUDA build unless a file says
-- otherwise.
--
-- Gpu is the driver (src/gpu_dispatch.h) and the rest of the outside, as a record of calls: the
-- code behind them is not in the repository, so they are a parameter. `Ledger` there is how the
-- driver counts its live allocations and its mapped bytes. Devctx holds the state: `AimdoContext`
-- (src/control.h) with the globals that its operations read, the VBARs by address, and the list of
-- VBARs from lowest to highest priority as a list of addresses, which stands for the links
-- `higher` and `lower` between the two sentinels. Devctx/Budget is `budget_deficit` and
-- `three_stooges` (src/plat.h) and `cuda_budget_deficit` (src/control.c).
--
-- Vbar is src/model-vbar.c: Vbar/Pages the page arithmetic, Vbar/Evict the release of one page
-- (`mod1`) and the relation of steps that any reclaim is made of, Vbar/Reclaim
-- `vbars_free_internal`, Vbar/Surplus `vbars_free_for_vbar`, Vbar/Fault `vbar_fault`, Vbar/Owner
-- what a model's owner does with its pages (unpinning, watermarks, freeing, reports), and
-- Vbar/Lifecycle allocation, priorities and destruction. Retire is the retirement tokens and
-- consumer holds of the Windows XPU build's pages (the same file). TwoPhase is the reclaim of that
-- build, where no call may wait for a queue: TwoPhase/Mapping the memory of a page,
-- TwoPhase/Candidates the freezing of pages and the commit, TwoPhase/Consumers what faults, pins
-- and consumers do to a page, TwoPhase/Touches what of this may come between a freezing and its
-- commit, TwoPhase/Reclaim the loops and the pressure that other threads ask for, TwoPhase/Copies
-- the holds of copies. VramBuffer is src/vrambuf.c, with VramBuffer/Table for
-- src/pyt-cu-plug-alloc.c, which hands buffers out. VmmRef is src/vmm-ref.c, counted references to
-- ranges and allocations. Transfer is src/xfer-file.c: the ring of tasks as a queue, how a
-- transfer is cut, and its run among worker threads as a relation of steps. Allocator is
-- src/pyt-cu-plug-alloc-async.c: the calls that take the place of the driver's allocation and
-- free, and the hash table of sizes, which refines a map from addresses to outstanding sizes.
--
-- `budget_deficit` feeds the reclaims; a fault calls both reclaims, `three_stooges` and the
-- budget; a buffer that grows calls the budget, the general reclaim and `three_stooges`. All of
-- them act on one state, so that the invariant on recorded usage is one statement for all.
--
-- Words: `size_t` and `uint64_t` sums are taken modulo 2 ^ 64 by `add64` and `sub64`, pin counts
-- modulo 2 ^ 32; `ssize_t` values are integers, into which `signed64` converts a `size_t` and
-- whose overflow the source does not meet. Loops run on fuel: the watermark for the loops that
-- lower it, the number of pages for the loop of a fault, the bytes to go for the growth of a
-- buffer, the pages needed for a reclaim in batches, the stores of other threads for a request.
-- Each round lowers what the fuel counts; the inner loop of `vbars_free_for_vbar`, too, lowers a
-- watermark in each round.
--
-- Not modelled: logging; locks, which are empty in the Linux build and which make each step of
-- TwoPhase/Touches and each exchange of a request one step here; the HIP and Windows platform
-- layers; the detours that route allocations here; host buffers, and what the platform does with a
-- file; the recording of allocation graphs.
pub mod Base
pub mod Gpu
pub mod Devctx
pub mod Vbar
pub mod VramBuffer
pub mod Retire
pub mod TwoPhase
pub mod Allocator
pub mod Transfer
pub mod VmmRef
pub mod Tests
