-- ===== src/Xhci/Transfers/Tests.antt =====
-- The theorem on the blocks of a transfer at a concrete input.
use drivers.Base.{◌+◌, ◌%◌, ◌/◌, ◌≡◌, refl, false, some, arith, inl, get_elem?}
use drivers.Base.Laps.{lap_cycle}
use drivers.Base.Outcome as O
use drivers.Xhci.Calls.{ok}
use drivers.Xhci.Trb.{Trb}
use drivers.Xhci.Ring.{Ring}
use drivers.Xhci.Ring.Push.{IsAfter}
use drivers.Xhci.Transfers.{normal_block, place_transfer, estimated_td_size, turns_of}
use drivers.Xhci.Transfers.Blocks.{place_transfer_ends}
use drivers.Xhci.Samples.{pipe}

-- Two blocks, the second for the bytes over 64 KiB
place_transfer_ends_example :
    (r' : Ring) × (b : Trb) × (place_transfer
        (turns_of 65636)
        pipe
        0x9000
        (estimated_td_size 65636)
        false
        65636
      ≡ ok ((0 + 1) % 4, r'))
    × (normal_block 0x9000 (estimated_td_size 65636) false 100 (lap_cycle ((0 + 1) / 4)) ≡ O.ok b)
    × (get_elem? r'.trbs ((0 + 1) % 4) ≡ some b)
    × IsAfter 4 2 r'
place_transfer_ends_example =
    place_transfer_ends 4 0 65636 pipe 0x9000 false
      (record { is_link = refl; room = refl; within = omega arith; here = inl (refl, refl) })
