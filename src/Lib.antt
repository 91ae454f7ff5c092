-- ===== src/Lib.antt =====
-- Models of the Redox drivers, in Rust, each with the theorems that make it correct: the USB host
-- controller driver (xhcid), from the rings that it shares with its controller over the futures of
-- commands and transfers to the files through which drivers use it, the reads and queues of the
-- storage drivers (driver-block, nvmed), the scheme of a disk controller's disks and partitions
-- (ahcid), the scheme of the network drivers (driver-network), the commands to USB disks
-- (usbscsid), the queues of virtual devices (virtio-core), the choice of drivers and the message
-- interrupts of PCI functions (pcid), the tables of ACPI (acpid), the PS/2 driver (ps2d) and the
-- input daemon (inputd).
--
-- A driver is a daemon that serves a scheme: the kernel hands it open, read, write and close calls
-- on numbered handles, and it answers over a socket. Below the scheme it talks to its device over
-- rings in shared memory, where a phase or cycle bit tells which entries are new. The development
-- follows both sides.
--
-- Base: Boolean tests and lists on native numbers, `Outcome` (`Ok`, `Err` with an errno, or a
-- panic), ordered maps for `BTreeMap`, `|` and `&` at variables, decimal numbers in texts, signed
-- numbers, numbers as bytes, and counting in laps.
-- Xhci.Setup, Xhci.TrbType, Xhci.Trb: xhcid/src/usb/setup.rs and xhcid/src/xhci/trb.rs. The four
-- words of a block are 32-bit numbers; every shift that can pass bit 31 is cut.
-- Xhci.Ring: xhcid/src/xhci/ring.rs and event.rs. `Ring`, `next_index`, `next` and the address
-- translations keep their names.
-- Xhci.Ports: the state of a port in xhcid/src/xhci/mod.rs, with the descriptor of an endpoint in
-- xhcid/src/driver_interface.rs.
-- Xhci.Reactor with its children Futures and Turns: xhcid/src/xhci/irq_reactor.rs. A future that
-- waits is an entry of the reactor's list; `acknowledge` wakes it by its number.
-- Xhci.Control, Xhci.Handles, Xhci.Requests, Xhci.Transfers, Xhci.Endpoints, Xhci.Opening,
-- Xhci.Files with their children Pipes and Positions: xhcid/src/xhci/scheme.rs, from
-- `execute_command` and `execute_control_transfer` up to `open`, `read` and `write`. Xhci.Calls:
-- how such a call ends, with `hangs` for one that waits for a lock that it holds itself.
-- Xhci.Contexts: what `configure_endpoints_once` of the same file computes for an endpoint, with
-- the readers of xhcid/src/driver_interface.rs and xhcid/src/xhci/extended.rs. Xhci.Samples: a
-- controller for the tests.
-- Storage.Block: storage/driver-block/src/lib.rs, `block_read`.
-- Storage.Queues, Storage.Commands: storage/nvmed/src/nvme/queues.rs and cmd.rs.
-- Storage.Namespace: storage/nvmed/src/nvme/mod.rs, `namespace_rw`, `namespace_read` and
-- `namespace_write`.
-- Storage.Scsi, Storage.Scsi.Packets, Storage.Scsi.Bot: storage/usbscsid/src/scsi and
-- storage/usbscsid/src/protocol, with the transfer types of xhcid/src/driver_interface.rs.
-- Storage.Disks, Storage.Disks.Handlers: storage/ahcid/src/scheme.rs over the `Disk` trait of
-- storage/driver-block/src/lib.rs.
-- Virtio.Queue: virtio-core/src/transport.rs and src/spec/split_virtqueue.rs, `Queue`,
-- `PendingRequest::poll` and `ChainBuilder`.
-- Pci.Config, Pci.Msix: pcid/src/config.rs, and pcid/src/driver_interface/msi.rs and bar.rs.
-- Acpi.Sdt: acpid/src/acpi.rs, `Sdt::new` and `Sdt::load_from_physical`.
-- Net.Scheme: net/driver-network/src/lib.rs, the handlers; Net.Scheme.Tick: `tick`.
-- Input.Vt, Input.Scheme, Input.Write: inputd/src/main.rs, the state and the handlers;
-- Input.Daemon: what its loop does after each request.
-- Input.Ps2, Input.Ps2.Keys: input/ps2d/src/state.rs, the state, `handle` and its key tables.
--
-- Handlers pass their state explicitly and return it with the result. What the code only calls is a
-- parameter: the DMA allocation, the disk's `read_fn`, the `Disk` trait, the NVMe controller with
-- the executor before it, the mapping of physical memory, the bulk endpoints that xhcid serves, the
-- awaiting of a future (the executor, the reactor and the controller behind it), the JSON texts and
-- regular expressions of xhcid, the network adapter, the dispatch of a request to its handler, and
-- orbclient's decoding of bytes into events. A write to a socket always succeeds, and no allocation
-- fails but the DMA one.
--
-- Loops run on fuel where the code's loop has no bound of its own. `next_index` needs two turns, as
-- the second starts at index 0; a transfer takes a turn for each block of 64 KiB; `block_read` is
-- given one turn for each byte, as every turn reads at least one; `complete_spin` is given what the
-- memory holds in each turn; the mouse of a VM is asked 256 times at most, as in the code; printing
-- a number is given one turn more than the number; `namespace_read` and `namespace_write` are given
-- one for each byte of the buffer; the recycling loop of `poll` needs one for each buffer of the
-- request; loading a table of ACPI needs at most one for each byte of it; reading a status of the
-- bulk-only transport needs one more than the device stalls. The other loops are recursion on a
-- list. Numbers are natural numbers with the wrap-around of the code written out, but that the sum of
-- a physical address and an offset in a ring or a table is not cut: no memory reaches 2 ^ 64.
--
-- Not modelled: register access, interrupts and the asynchronous executors, log output, in xhcid
-- the attaching of devices, the fetching of their descriptors, the rest of `configure_endpoints`,
-- which writes the contexts and tells the controller and the device, and the starting of their
-- drivers, the parts of the drivers that are port or MMIO input and output, the third-party
-- libraries, and the drivers that are not named here. In inputd `fpath` is left out, which formats
-- a number.
pub mod Base
pub mod Xhci
pub mod Storage
pub mod Virtio
pub mod Pci
pub mod Acpi
pub mod Net
pub mod Input
