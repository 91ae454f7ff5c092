-- ===== src/Xhci/Tests.antt =====
-- The controller's theorems at concrete inputs.
use drivers.Base.{
  ℕ, ◌+◌, ◌*◌, ◌/◌, ◌%◌, ◌^◌, ◌≡◌, refl, Bool, true, false, some, [], ◌∷◌, get_elem?, arith,
}
use drivers.Base.Laps.{lap_cycle}
use drivers.Base.Outcome.{Outcome, ok}
use drivers.Xhci.Setup.{Setup, to_u64}
use drivers.Xhci.TrbType.{TrbType}
use drivers.Xhci.Trb.{Trb, in_}
use drivers.Xhci.Trb.Build.{
  link, no_op_cmd, enable_slot, disable_slot, address_device, configure_endpoint, evaluate_context,
  reset_endpoint, set_tr_deque_ptr, stop_endpoint, reset_device, transfer_no_op, setup, data_trb,
  status_trb, NormalFlags, normal,
}
use drivers.Xhci.Trb.Commands.{Builds, commands-Builds}
use drivers.Xhci.Trb.Transfers.{Transfer, IsPacket, transfers_lem}
use drivers.Xhci.Ring.{
  Dma, Ring, EventRing, new_ring, next, phys_addr_to_index, phys_addr_to_entry, trb_phys_ptr,
}
use drivers.Xhci.Ring.Laps.{after, next_order}
use drivers.Xhci.Ring.Addresses.{phys_addr-round_trip}

commands-Builds_example :
    Builds (ok (no_op_cmd true)) TrbType.no_op_cmd 0 0 0 true
    × Builds (ok (enable_slot 1 true)) TrbType.enable_slot 0 (1 % 32) 0 true
    × Builds (ok (disable_slot 1 true)) TrbType.disable_slot 1 0 0 true
    × Builds (address_device 1 0x1000 false true) TrbType.address_device 1 0 0x1000 true
    × Builds (configure_endpoint 1 0x1000 true) TrbType.configure_endpoint 1 0 0x1000 true
    × Builds (evaluate_context 1 0x1000 false true) TrbType.evaluate_context 1 0 0x1000 true
    × Builds (reset_endpoint 1 3 false true) TrbType.reset_endpoint 1 3 0 true
    × Builds
        (set_tr_deque_ptr 0x2001 true 1 2 3 1)
        TrbType.set_tr_dequeue_pointer
        1
        3
        (0x2001 + 1 * 2)
        true
    × Builds (stop_endpoint 1 3 false true) TrbType.stop_endpoint 1 3 0 true
    × Builds (ok (reset_device 1 true)) TrbType.reset_device 1 0 0 true
commands-Builds_example =
    commands-Builds 1 3 0x1000 0x2001 1 2 false true (omega arith) (omega arith) (omega arith) refl
      (omega arith) (omega arith) (omega arith)

abbrev packet : Setup
packet = record { kind = 0x80; request = 6; value = 0x100; index = 0; length = 18 }

packet-IsPacket : IsPacket packet
unfolding IsPacket
packet-IsPacket = (omega arith, omega arith, omega arith, omega arith, omega arith)

abbrev flags : NormalFlags
flags = record { ent = false; isp = true; chain = false; ioc = true; idt = false; bei = false }

transfers_lem_example :
    Transfer (link 0x1000 true false) TrbType.link 0x1000 0 false
    × Transfer (transfer_no_op 1 false true true false) TrbType.no_op 0 (1 * 2 ^ 22) false
    × Transfer (setup packet in_ false) TrbType.setup_stage (to_u64 packet) 8 false
    × Transfer (data_trb 0x1000 512 true false) TrbType.data_stage 0x1000 512 false
    × Transfer (status_trb 1 true true true false false) TrbType.status_stage 0 (1 * 2 ^ 22) false
    × ((trb : Trb) × (normal 0x1000 512 false 3 1 flags ≡ ok trb)
        × Transfer trb TrbType.normal 0x1000 (512 + 3 * 2 ^ 17 + 1 * 2 ^ 22) false)
transfers_lem_example =
    transfers_lem 0x1000 512 3 1 packet in_ true true true false false flags (omega arith)
      (omega arith) (omega arith) (omega arith) packet-IsPacket

abbrev memory : Dma
memory = record {
  trbs = no_op_cmd false ∷ no_op_cmd false ∷ no_op_cmd false ∷ [];
  physical = 0x1000;
  virtual = 0x7000_0000;
}

abbrev alloc : Bool → ℕ → Outcome Dma
alloc ac64 n = ok memory

abbrev ring : Bool → Ring
ring is_link = record { link_ring = is_link; dma = memory; i = 0; cycle = is_link }

made : new_ring alloc true 3 true ≡ ok (ring true)
unfolding new_ring
made = refl

-- The fifth call, in the third pass over two blocks
next_order_example :
    (q : Ring) × (q' : Ring) × (after 4 (ring true) ≡ some (ok q))
    × (next 2 q ≡ some (ok (4 % 2, lap_cycle (4 / 2), q')))
next_order_example = next_order alloc true 2 4 memory (ring true) refl refl (omega arith) made

abbrev alone : Ring
alone = record {
  link_ring = true;
  dma = record { trbs = no_op_cmd false ∷ []; physical = 0x1000; virtual = 0x7000_0000 };
  i = 0;
  cycle = true;
}

phys_addr-round_trip_example :
    (paddr : ℕ) × (trb_phys_ptr (ring true) true (0x7000_0000 + 2 * 16) ≡ ok paddr)
    × (phys_addr_to_index (ring true) true paddr ≡ ok (some 2))
    × ((t : Trb) × (get_elem? (ring true).trbs 2 ≡ some t)
        × (phys_addr_to_entry (ring true) true paddr ≡ ok (some t)))
phys_addr-round_trip_example = phys_addr-round_trip (ring true) true 2 (omega arith)

abbrev events : EventRing
events = record {
  address_low = 0x1000;
  address_high = 0;
  size = 3;
  ring = record { link_ring = false; dma = memory; i = 2; cycle = true };
}
