-- ===== src/Xhci/Contexts/Tests.antt =====
-- The theorems on the contexts of endpoints at concrete inputs.
use drivers.Base.{◌+◌, ◌*◌, ◌^◌, ◌≡◌, refl, false, none, some, arith}
use drivers.Base.Outcome.{panicked}
use drivers.Xhci.Contexts.{ProtocolSpeed, EndpointFields, endpoint_fields, max_burst, is_bulk}
use drivers.Xhci.Contexts.Payload.{bulk_endpoint_panics}
use drivers.Xhci.Contexts.Words.{Reads}
use drivers.Xhci.Contexts.Bounds.{IsSized, endpoint_context-Reads}
use drivers.Xhci.Ports.{EndpDesc}
use drivers.Xhci.Samples.{bulk_out, dev_desc}

-- 480 megabits
abbrev high_speed : ProtocolSpeed
high_speed = record { a = 480 * 2 ^ 16 + 0x20 }

bulk_endpoint_panics_example : endpoint_fields high_speed dev_desc bulk_out false 0 ≡ panicked
unfolding is_bulk
bulk_endpoint_panics_example = bulk_endpoint_panics high_speed dev_desc bulk_out false 0 refl refl

-- A bulk endpoint from the device with 8 streams, at super speed
abbrev streaming : EndpDesc
streaming = record {
  address = 0x81;
  attributes = 2;
  max_packet_size = 1024;
  interval = 0;
  ssc = some (record { max_burst = 15; attributes = 3; bytes_per_interval = 512 });
  sspc = none;
}

abbrev fields : EndpointFields
fields = record {
  mult = 0;
  streams = 2;
  interval = 0;
  max_esit_payload = 512;
  ep_ty = 6;
  max_burst_size = 15;
  max_packet_size = 1024;
  trb_len = 3072;
}

streaming-IsSized : IsSized streaming
unfolding max_burst
streaming-IsSized = record {
  max_burst = omega arith;
  bytes = omega arith;
  plus_bytes = omega arith;
}

endpoint_context-Reads_example : Reads fields 0x1_2345_6781
unfolding endpoint_fields
endpoint_context-Reads_example =
    endpoint_context-Reads high_speed (record dev_desc { usb = 0x300 }) streaming false 15 fields
      0x1_2345_6781 streaming-IsSized refl (omega arith)
