-- ===== src/Virtio.antt =====
-- The library of the drivers of virtual devices (virtio-core): the split virtqueue.
pub mod Queue
