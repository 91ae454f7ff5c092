-- ===== src/Xhci/Samples.antt =====
-- A controller with one device, for the tests.
use drivers.Base.{ℕ, ◌+◌, true, false, none, some, [], ◌∷◌}
use drivers.Base.Outcome as O
use drivers.Base.Outcome.{Outcome}
use drivers.Xhci.Calls.{ok}
use drivers.Xhci.Trb.{Trb}
use drivers.Xhci.Trb.Build.{reserved}
use drivers.Xhci.Ring.{Ring}
use drivers.Xhci.Ports.{EndpDesc, DevDesc, PortState, EndpointState, EndpIfState, one}
use drivers.Xhci.Control.{Xhci, Await}

-- A ring of four usable blocks
abbrev pub pipe : Ring
pipe = record {
  link_ring = true;
  dma = record {
    trbs = reserved false ∷ reserved false ∷ reserved false ∷ reserved false ∷ reserved false ∷ [];
    physical = 0x5000;
    virtual = 0x7200_0000;
  };
  i = 0;
  cycle = true;
}

abbrev pub idle_endpoint : EndpointState
idle_endpoint = record { transfer = one pipe; driver_if_state = EndpIfState.init }

-- A bulk endpoint to the device
abbrev pub bulk_out : EndpDesc
bulk_out = record {
  address = 1;
  attributes = 2;
  max_packet_size = 512;
  interval = 0;
  ssc = none;
  sspc = none;
}

abbrev pub dev_desc : DevDesc
dev_desc = record {
  usb = 0x200;
  config_descs =
      record {
        configuration_value = 1;
        interface_descs = record { endpoints = bulk_out ∷ [] } ∷ [];
      }
      ∷ [];
}

abbrev pub port_1 : PortState
port_1 = record {
  slot = 1;
  cfg_idx = some 0;
  dev_desc = some dev_desc;
  endpoint_states = (0, idle_endpoint) ∷ (1, idle_endpoint) ∷ [];
}

abbrev pub controller : Xhci ℕ
controller = record {
  hci = record { ac64 = true; cmd = pipe; port_states = (1, port_1) ∷ [] };
  contexts = [];
  locked = [];
  doorbells = [];
  cells = 0;
  outside = 0;
}

-- An event for the third block of the ring
abbrev pub success : Trb
success = record { data_low = 0x5020; data_high = 0; status = 0x0100_0000; control = 0x8001 }

-- A device that answers every transfer with the bytes 7 and 8, and counts them
abbrev pub await : Await ℕ
await future buffer x = (
  ok (record { event_trb = success; src_trb = some (reserved false) }, 7 ∷ 8 ∷ []),
  record x { outside = x.outside + 1 },
)

abbrev pub alloc : ℕ → Outcome ℕ
alloc n = O.ok 0x9000
