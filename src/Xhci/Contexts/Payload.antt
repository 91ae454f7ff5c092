-- ===== src/Xhci/Contexts/Payload.antt =====
-- Endpoints whose context cannot be filled in.
use drivers.Base.{ℕ, ◌≡◌, Bool, true, false, none, arith}
use drivers.Base.Outcome.{panicked}
use drivers.Xhci.Ports.{EndpDesc, DevDesc, is_isoch}
use drivers.Xhci.Contexts.{
  ProtocolSpeed, is_bulk, is_interrupt, is_superspeed, has_ssp_companion, is_periodic,
  endp_ctx_max_burst, endp_ctx_max_esit_payload, endpoint_fields,
}

bulk-others : (d : EndpDesc) → is_bulk d ≡ true → (is_interrupt d ≡ false) × (is_isoch d ≡ false)
unfolding is_bulk is_interrupt is_isoch
bulk-others d h = ground arith

-- The context of a bulk endpoint without a SuperSpeed companion, whatever the version and the speed of
-- its device, is never filled in: the driver panics, as it reads the payload from the companion.
pub bulk_endpoint_panics :
    (speed_id : ProtocolSpeed) (dev_desc : DevDesc) (d : EndpDesc) (lec : Bool)
    → (log_max_psa_size : ℕ) → is_bulk d ≡ true
    → d.ssc ≡ none
    → endpoint_fields speed_id dev_desc d lec log_max_psa_size ≡ panicked
unfolding endpoint_fields endp_ctx_max_burst endp_ctx_max_esit_payload is_periodic is_superspeed
    has_ssp_companion
bulk_endpoint_panics speed_id dev_desc d lec log_max_psa_size h none_there =
    ground (arith, bulk-others d h)
