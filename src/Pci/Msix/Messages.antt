-- ===== src/Pci/Msix/Messages.antt =====
-- The fields of a message's address and data in pcid/src/driver_interface/msi.rs.
use drivers.Base.{
  ℕ, ◌+◌, ◌*◌, bit_and, ◌/◌, ◌%◌, ◌^◌, ◌<◌, ◌≡◌, refl, ◌∙◌, bit, bit_or, Bool, true, false, arith,
}
use drivers.Base.Bits.{or_below, or_above, or_low, or_zero, and_bit}
use drivers.Pci.Msix.{
  TriggerMode, LevelTriggerMode, DeliveryMode, trigger_code, level_code, delivery_code,
  message_address, message_data, MsixTableEntry, MsiAddrAndData, addr_of, set_masked, mask, unmask,
  write_addr_and_data,
}

address_sum :
    (dest hint logical : ℕ)
    → dest < 256
    → hint < 2
    → logical < 2
    → bit_or (bit_or (bit_or 0xfee00000 (dest * 2 ^ 12)) (hint * 2 ^ 3)) (logical * 2 ^ 2)
      ≡ 0xfee00000 + dest * 2 ^ 12 + hint * 2 ^ 3 + logical * 2 ^ 2
address_sum dest hint logical small h l =
    or_below 3 (logical * 2 ^ 2)
      (or_below 12 (hint * 2 ^ 3) (or_below 20 (dest * 2 ^ 12) refl refl (omega arith))
        (omega arith) (omega arith))
      (omega arith) (omega arith)

data_sum :
    (trigger lev delivery vector : ℕ)
    → lev < 2
    → delivery < 8
    → vector < 256
    → bit_or (bit_or (bit_or (trigger * 2 ^ 15) (lev * 2 ^ 14)) (delivery * 2 ^ 8)) vector
      ≡ trigger * 2 ^ 15 + lev * 2 ^ 14 + delivery * 2 ^ 8 + vector
data_sum trigger lev delivery vector l d v =
    or_below 8 vector
      (or_below 14 (delivery * 2 ^ 8) (or_below 15 (lev * 2 ^ 14) refl (omega arith) (omega arith))
        (omega arith) (omega arith))
      (omega arith) v

bit_small : (b : Bool) → bit b < 2
bit_small true = omega arith
bit_small false = omega arith

delivery_small : (d : DeliveryMode) → delivery_code d < 8
delivery_small d = ground arith

level_small : (l : LevelTriggerMode) → level_code l < 2
level_small l = ground arith

-- The address of a message carries the destination, the redirection hint and the mode of the
-- destination where the interrupt controller reads them, in the window of addresses that it
-- answers to; its data carry the trigger mode, the level, the delivery mode and the vector.
pub message-fields :
    (dest vector : ℕ) (hint logical : Bool) (trigger : TriggerMode) (lev : LevelTriggerMode)
    (delivery : DeliveryMode)
    → dest < 256
    → vector < 256
    → let a = message_address dest hint logical in
      let d = message_data trigger lev delivery vector in
      (a / 2 ^ 20 ≡ 0xfee)
      × (a / 2 ^ 12 % 2 ^ 8 ≡ dest)
      × (a / 2 ^ 3 % 2 ≡ bit hint)
      × (a / 2 ^ 2 % 2 ≡ bit logical)
      × (d / 2 ^ 15 ≡ trigger_code trigger)
      × (d / 2 ^ 14 % 2 ≡ level_code lev)
      × (d / 2 ^ 8 % 2 ^ 3 ≡ delivery_code delivery)
      × (d % 2 ^ 8 ≡ vector)
unfolding message_address message_data
message-fields dest vector hint logical trigger lev delivery small few =
    let h = bit_small hint in
    let l = bit_small logical in
    let v = level_small lev in
    let y = delivery_small delivery in
    rw
      (
        address_sum dest (bit hint) (bit logical) small h l,
        data_sum (trigger_code trigger) (level_code lev) (delivery_code delivery) vector v y few,
      )
      (
        omega arith,
        omega arith,
        omega arith,
        omega arith,
        omega arith,
        omega arith,
        omega arith,
        omega arith,
      )

-- A table entry that is masked, written and unmasked has the whole address and the data, and its
-- vector is not masked: bit 0 of the vector control is off and the other bits are as they were.
pub write_addr_and_data-unmask :
    (entry : MsiAddrAndData) (e : MsixTableEntry)
    → entry.addr < 2 ^ 64
    → let e' = unmask (write_addr_and_data entry (mask e)) in
      (addr_of e' ≡ entry.addr)
      × (e'.msg_data ≡ entry.data_word)
      × (e'.vec_ctl % 2 ≡ 0)
      × (e'.vec_ctl / 2 ≡ e.vec_ctl / 2)
unfolding write_addr_and_data set_masked addr_of
write_addr_and_data-unmask entry e small =
    let on = bit_or e.vec_ctl 1 in
    let set : on ≡ e.vec_ctl / 2 * 2 + 1 =
      omega (arith, or_low e.vec_ctl 1, or_zero (e.vec_ctl / 2)) in
    let low : bit_and on 1 ≡ 1 = omega (arith, and_bit 0 on) in
    (
      or_above 32 (entry.addr / 2 ^ 32 % 2 ^ 32 * 2 ^ 32) {s = entry.addr % 2 ^ 32} refl
            (omega arith) (omega arith)
          ∙ omega arith,
      refl,
      rw low (omega arith),
      rw low (omega arith),
    )
