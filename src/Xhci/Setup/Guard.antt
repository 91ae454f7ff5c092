-- ===== src/Xhci/Setup/Guard.antt =====
-- Which setup packets xhcid/src/usb/setup.rs lets through from the scheme.
use drivers.Base.{ℕ, ◌/◌, ◌%◌, ◌^◌, ◌≡◌, refl, ◌↔◌, ◌⊎◌, true, false, arith}
use drivers.Base.Bits.{field_at}
use drivers.Xhci.Setup.{
  Setup, req_ty, is_allowed_from_api, get_status, clear_feature, set_feature, set_address,
  get_descriptor, set_descriptor, get_configuration, set_configuration, set_interface,
}

req_ty-kind : (s : Setup) → req_ty s ≡ s.kind / 2 ^ 5 % 2 ^ 2
unfolding req_ty
req_ty-kind s = field_at 2 5 s.kind

-- A packet from the scheme is let through exactly if bits 5 and 6 of its kind say class or vendor
-- request. So none of the standard requests that the driver makes itself is.
is_allowed-Guards :
    (s : Setup) (kind index i a : ℕ) (value language length : ℕ)
    → ((is_allowed_from_api s ≡ true) ↔ ((s.kind / 32 % 4 ≡ 1) ⊎ (s.kind / 32 % 4 ≡ 2)))
      × (is_allowed_from_api get_status ≡ false)
      × (is_allowed_from_api (clear_feature value) ≡ false)
      × (is_allowed_from_api (set_feature value) ≡ false)
      × (is_allowed_from_api (set_address value) ≡ false)
      × (is_allowed_from_api (get_descriptor kind index language length) ≡ false)
      × (is_allowed_from_api (set_descriptor kind index language length) ≡ false)
      × (is_allowed_from_api get_configuration ≡ false)
      × (is_allowed_from_api (set_configuration value) ≡ false)
      × (is_allowed_from_api (set_interface i a) ≡ false)
unfolding is_allowed_from_api get_status clear_feature set_feature set_address get_descriptor
    set_descriptor get_configuration set_configuration set_interface req_ty
is_allowed-Guards s kind index i a value language length =
    (ground (arith, field_at 2 5 s.kind), refl, refl, refl, refl, refl, refl, refl, refl, refl)
