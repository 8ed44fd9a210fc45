-- ===== src/Lib.antt =====
-- The host side of nix-wasm, which boots Linux in WebAssembly: the 9P wire codec and server, the split
-- virtqueues that the guest's drivers and the host's devices share, four of those devices (the block
-- device with the journal of its disk, the console, the network card and the sockets), and the host's
-- own access to a task's memory.
--
-- The guest kernel puts descriptor chains into a virtqueue in the linear memory and kicks the host.
-- The device that owns the queue pops the chains, serves each, gives it back through the used ring
-- and raises an interrupt. The 9P devices carry frames of the codec in such chains, which the
-- server answers for the fids of each connection, over the file systems that it is given; the block
-- device copies sectors between the chains and an image, and notes in a bitmap which sectors
-- changed, so that the host can save them as an overlay and apply it at the next boot; the vsock
-- device carries streams between the guest's sockets and the host's, each side within the window
-- that the other gives. A host import that gets an address of a task walks the task's page table.
-- Each task has a worker with device models of its own; a table in shared memory holds the layout
-- and the cursor of each queue.
--
-- Prelude: lists, bytes, bits and Numbers, for which no file of the repository stands.
-- Text: TextEncoder and TextDecoder, which the codec calls.
-- NineP: runtime/ninep/protocol.ts. Writer and Reader are its two classes, a method each; Messages has
--   the record, the write case and the read case of each message, grouped by what they are for;
--   Message has the codes and the unions; Codec has encode, decode and peekTag; Dirent has packDirent
--   and direntSize. Wire and Carries relate a write case to its read case.
-- NineP.Server: runtime/ninep/server.ts. The file itself has the interface of the backends, the state
--   and the path helpers; Parts has the connections, fids and qids; Files has the deferred
--   writers and the directories; Handlers, Creates and Dispatch have a definition `on_…` for each case
--   of dispatch, and Handle has dispatch and handle. A fid's object is an address in a heap, since the
--   map of the writers' owners names it too. Steps, Deeds, Opens, Makes, Requests and Frames show that
--   a relation between states which holds of each kind of change holds of a whole frame.
-- Virtio.Machine: a state with exceptions, in which what was changed before a throw stays changed.
-- Virtio.Vring: runtime/virtio/vring.ts, next as `next_chain`, _readChain as `read_chain`, readOut,
--   writeIn, inCapacity and pushUsed under their names. The state is the memory and the cursor. Delivery
--   says what it is for bytes to go to the guest through a receive queue.
-- Virtio.Shared: runtime/virtio/shared-queues.ts, a method each. The state is the words of the table.
-- Virtio.Device: runtime/virtio/device.ts, vring and a step on it as `with_ring`, setupQueue, raiseIrq
--   and reset. The cursor of a ring is the table's: it is loaded before a step and stored after it.
-- Virtio.Disk: runtime/virtio/blk-disk.ts, packDirtySectors, applyDirtyOverlay, markDirty and the
--   counts. The bitmap is a state whose steps throw behind its end if it is shared; what mutates the
--   image returns it, with what it throws beside it.
-- Virtio.Blk: runtime/virtio/blk-device.ts, _service as `service` with a definition for each branch on
--   the request's type, onNotify as `on_notify`. The state is the queue, the image, the bitmap, and
--   the calls of onDirty and of the interrupt, counted.
-- Virtio.Console: runtime/virtio/console-device.ts, pushRx and flushRx with the loop as `rx_loop`,
--   drainTx as `drain_tx`, setSize and configRead.
-- Virtio.Net: runtime/virtio/net-device.ts, pushRx as `push_rx` with the queue's part as `offer`,
--   onNotify as `on_notify`.
-- Virtio.Vsock: runtime/virtio/vsock-device.ts. The file itself has the headers, the connection objects
--   and the state; Send has _pushRx as `push_rx`, _flushConnection and _closeConnection; Protocol has
--   _handleTxPacket with a definition for each group of its cases, onNotify and the host's calls;
--   Lifecycle has the state machine of a connection that the packets are compared with. A
--   connection object is an address in a heap, since the host keeps it after the device forgot it.
-- Uaccess: runtime/mmu-uaccess.ts, translateUser, readUser, readUserCString and writeUser, each loop
--   over pages on fuel; Bytewise and Strings have the reads byte by byte that they are compared with.
--
-- Bounds and fuel. Numbers are natural numbers with the wrap-around of a store written out. The
-- doubling of the writer's buffer has as much fuel as bytes are needed, and every round gains one.
-- A loop over pages has a round for each byte at most. A flush has one for each byte and each piece that
-- waits, which is enough since each round sends one or ends.
-- _readChain has the source's own bound of num + 1 rounds. The loops over a queue end when the
-- guest stops exposing chains, which is the guest's to say: they take fuel and tell when that ran
-- out, and what is shown of them holds with any fuel. A 64-bit value becomes a Number by rounding
-- to the nearest, as Number of a BigInt does.
--
-- Not modelled: createStateDiskBacking and the workers' instances of a device, which forward its
-- kicks; callbacks of the host that call a device back while it runs; what can happen in the 9P
-- server between two awaits of a request, and its tracing; the other devices, the file systems behind
-- the 9P server, the dynamic linker, the soft MMU pass, the kernel's workers and boot, which rest on
-- the engine and on the page; the pages, the kernel patches, user space and the vendored projects.
pub mod Prelude
pub mod Text
pub mod NineP
pub mod Virtio
pub mod Uaccess
