-- ===== src/Xhci.antt =====
-- xhcid: the rings of transfer request blocks that driver and controller share, the blocks
-- themselves and the USB setup packets that they carry.
pub mod Setup
pub mod TrbType
pub mod Trb
pub mod Ring
mod Samples
pub mod Ports
pub mod Calls
pub mod Reactor
pub mod Contexts
pub mod Control
pub mod Handles
pub mod Requests
pub mod Transfers
pub mod Endpoints
pub mod Opening
pub mod Files
mod Tests
