-- ===== src/Xhci/Reactor/Tests.antt =====
-- The reactor's theorems at concrete inputs.
use drivers.Base.{◌+◌, ◌≡◌, refl, true, false, none, some, [], ◌∷◌, if◌then◌else◌, arith}
use drivers.Base.Outcome.{ok, panicked}
use drivers.Xhci.Trb.{
  Trb, trb_type, completion_code, completion_trb_pointer, has_completion_trb_pointer, read_data,
}
use drivers.Xhci.Trb.Build.{reserved, no_op_cmd, is_command_trb}
use drivers.Xhci.TrbType.{TrbType}
use drivers.Xhci.Ring.{Ring, EventRing, phys_base, phys_addr_to_index}
use drivers.Xhci.Reactor.{
  State, command_completion, other, NextEventTrb, Hci, IrqReactor, acknowledge, acknowledge_failed,
}
use drivers.Xhci.Reactor.Futures.{
  EventDoorbell, EventTrbFuture, Polled, send, ring, poll, finished,
  next_command_completion_event_trb,
}
use drivers.Xhci.Reactor.Turns.{EventLoop, turn}
use drivers.Xhci.Reactor.Delivery.{command_completes}
use drivers.Xhci.Reactor.Failures.{regular, isochronous, ends_isochronous, acknowledge_failed_lem}
use drivers.Xhci.Reactor.Waiting.{waiting, answered, acknowledge_conserves}

abbrev commands : Ring
commands = record {
  link_ring = true;
  dma = record {
    trbs = no_op_cmd false ∷ no_op_cmd true ∷ no_op_cmd false ∷ [];
    physical = 0x1000;
    virtual = 0x7000_0000;
  };
  i = 2;
  cycle = true;
}

-- The completion of the command in block 1
abbrev event : Trb
event = record { data_low = 0x1010; data_high = 0; status = 0x0100_0000; control = 0x8401 }

abbrev events : EventRing
events = record {
  address_low = 0x3000;
  address_high = 0;
  size = 2;
  ring = record {
    link_ring = false;
    dma = record { trbs = event ∷ reserved false ∷ []; physical = 0x2000; virtual = 0x7100_0000 };
    i = 1;
    cycle = true;
  };
}

-- A future that waits for the change of a port
abbrev watcher : State
watcher = record { message = 4; kind = other TrbType.port_status_change; is_isoch_or_vf = false }

abbrev command : State
command = record { message = 7; kind = command_completion 0x1010; is_isoch_or_vf = false }

abbrev hci : Hci
hci = record { ac64 = true; cmd = commands; port_states = [] }

abbrev reactor : IrqReactor
reactor = record { hci = hci; states = watcher ∷ []; finished = [] }

abbrev loop : EventLoop
loop = record {
  reactor = reactor;
  received = [];
  event_ring = events;
  event_trb_index = 0;
  ports = 2;
  enumerations = [];
  cleared = [];
  dequeue_pointer = 0x2000;
}

abbrev bell : EventDoorbell
bell = record { index = 0; value = 0 }

abbrev answer : NextEventTrb
answer = record { event_trb = event; src_trb = some (no_op_cmd true) }

command_completes_example :
    (future : EventTrbFuture) × (first : Polled) × (s : State) × (l' : EventLoop)
    × (next_command_completion_event_trb true 7 commands 1 bell ≡ ok future)
    × (poll future none ≡ ok first)
    × (first.effects ≡ send s ∷ ring bell ∷ [])
    × (first.ready ≡ none)
    × (turn (record loop { received = s ∷ [] }) ≡ ok l')
    × (l'.reactor.states ≡ watcher ∷ [])
    × (l'.reactor.finished ≡ (7, some answer) ∷ [])
    × (poll first.future (some answer)
        ≡ ok (record { future = finished; ready = some answer; effects = [] }))
unfolding is_command_trb no_op_cmd trb_type completion_code completion_trb_pointer phys_base
    has_completion_trb_pointer read_data
command_completes_example =
    command_completes loop 1 7 (no_op_cmd true) event bell refl refl refl refl refl (omega arith)
      refl (omega arith, tt)

abbrev both : IrqReactor
both = record { hci = hci; states = watcher ∷ command ∷ []; finished = [] }

abbrev answered_one : IrqReactor
answered_one = record {
  hci = record hci {
    cmd = record commands {
      dma = record {
        trbs = no_op_cmd false ∷ reserved false ∷ no_op_cmd false ∷ [];
        physical = 0x1000;
        virtual = 0x7000_0000;
      };
    };
  };
  states = watcher ∷ [];
  finished = (7, some answer) ∷ [];
}

acknowledge-both : acknowledge event both ≡ ok answered_one
unfolding acknowledge trb_type completion_trb_pointer has_completion_trb_pointer completion_code
    read_data phys_addr_to_index
acknowledge-both = refl

acknowledge_conserves_example :
    waiting 7 (watcher ∷ []) + answered 7 ((7, some answer) ∷ [])
    ≡ waiting 7 (watcher ∷ command ∷ []) + answered 7 []
unfolding phys_addr_to_index
acknowledge_conserves_example =
    acknowledge_conserves event both answered_one (tt, ((1, refl), tt)) acknowledge-both 7

-- An isochronous transfer
abbrev isoch : State
isoch = record { message = 5; kind = other TrbType.isoch; is_isoch_or_vf = true }

acknowledge_failed_lem_example : acknowledge_failed event (isoch ∷ watcher ∷ []) ≡ (
    if ends_isochronous (isoch ∷ watcher ∷ [])
    then panicked
    else ok (regular (isoch ∷ watcher ∷ []), isochronous event (isoch ∷ watcher ∷ [])))
acknowledge_failed_lem_example = acknowledge_failed_lem event (isoch ∷ watcher ∷ [])
