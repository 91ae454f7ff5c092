-- ===== src/Xhci/TrbType.antt =====
-- xhcid/src/xhci/trb.rs: the variants of `TrbType` and their codes.
use drivers.Base.{ℕ}

pub data TrbType : Type 0 where
  reserved normal setup_stage data_stage status_stage isoch link event_data no_op : TrbType
  enable_slot disable_slot address_device configure_endpoint evaluate_context : TrbType
  reset_endpoint stop_endpoint set_tr_dequeue_pointer reset_device force_event : TrbType
  negotiate_bandwidth set_latency_tolerance_value get_port_bandwidth force_header : TrbType
  no_op_cmd get_extended_property set_extended_property rsv26 rsv27 rsv28 rsv29 rsv30 : TrbType
  rsv31 transfer command_completion port_status_change bandwidth_request doorbell : TrbType
  host_controller device_notification mfindex_wrap : TrbType

-- `t as u8`, the position among the variants
abbrev pub trb_type_code : TrbType → ℕ
trb_type_code TrbType.reserved = 0
trb_type_code TrbType.normal = 1
trb_type_code TrbType.setup_stage = 2
trb_type_code TrbType.data_stage = 3
trb_type_code TrbType.status_stage = 4
trb_type_code TrbType.isoch = 5
trb_type_code TrbType.link = 6
trb_type_code TrbType.event_data = 7
trb_type_code TrbType.no_op = 8
trb_type_code TrbType.enable_slot = 9
trb_type_code TrbType.disable_slot = 10
trb_type_code TrbType.address_device = 11
trb_type_code TrbType.configure_endpoint = 12
trb_type_code TrbType.evaluate_context = 13
trb_type_code TrbType.reset_endpoint = 14
trb_type_code TrbType.stop_endpoint = 15
trb_type_code TrbType.set_tr_dequeue_pointer = 16
trb_type_code TrbType.reset_device = 17
trb_type_code TrbType.force_event = 18
trb_type_code TrbType.negotiate_bandwidth = 19
trb_type_code TrbType.set_latency_tolerance_value = 20
trb_type_code TrbType.get_port_bandwidth = 21
trb_type_code TrbType.force_header = 22
trb_type_code TrbType.no_op_cmd = 23
trb_type_code TrbType.get_extended_property = 24
trb_type_code TrbType.set_extended_property = 25
trb_type_code TrbType.rsv26 = 26
trb_type_code TrbType.rsv27 = 27
trb_type_code TrbType.rsv28 = 28
trb_type_code TrbType.rsv29 = 29
trb_type_code TrbType.rsv30 = 30
trb_type_code TrbType.rsv31 = 31
trb_type_code TrbType.transfer = 32
trb_type_code TrbType.command_completion = 33
trb_type_code TrbType.port_status_change = 34
trb_type_code TrbType.bandwidth_request = 35
trb_type_code TrbType.doorbell = 36
trb_type_code TrbType.host_controller = 37
trb_type_code TrbType.device_notification = 38
trb_type_code TrbType.mfindex_wrap = 39
