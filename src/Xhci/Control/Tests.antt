-- ===== src/Xhci/Control/Tests.antt =====
-- The theorem on control transfers at a concrete input.
use drivers.Base.{◌≡◌, refl, Bool, true, some, [], ◌∷◌, arith, inl}
use drivers.Xhci.Calls.{after}
use drivers.Xhci.Setup.{get_configuration}
use drivers.Xhci.Trb.{Trb, in_}
use drivers.Xhci.Trb.Build.{data_trb}
use drivers.Xhci.Ring.{Ring}
use drivers.Xhci.Ports.{one}
use drivers.Xhci.Reactor.Futures.{pending}
use drivers.Xhci.Control.{
  with_transfer, with_port, doorbell_at, execute_control_transfer, control_result,
}
use drivers.Xhci.Control.Stages.{HasStages, control_state, control_transfer_waits}
use drivers.Xhci.Samples.{pipe, idle_endpoint, port_1, controller, await}
use drivers.Base.Map.{lookup}

-- A data block for one byte
abbrev block : Bool → Trb
block cycle = data_trb 0x9000 1 true cycle

control_transfer_waits_example :
    (r' : Ring) × HasStages 4 0 get_configuration in_ block r'
    × (execute_control_transfer await 1 get_configuration in_ block (0 ∷ []) controller
        ≡ after
            (await
              (pending (control_state pipe true 0 1 4 0) (some (doorbell_at 1 1)))
              (0 ∷ [])
              (record (with_port 1 (with_transfer port_1 0 idle_endpoint (one r')) controller) {
                cells = 1;
              }))
            control_result)
unfolding lookup
control_transfer_waits_example =
    control_transfer_waits await controller 1 4 0 port_1 idle_endpoint pipe get_configuration in_
      block (0 ∷ []) refl refl refl refl
      (record { is_link = refl; room = refl; within = omega arith; here = inl (refl, refl) })
      (omega arith) refl
