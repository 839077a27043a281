-- ===== src/Generators.antt =====
-- runtime/src/iree-amd-aie/aie_runtime/Utils: the generators that hand out buffer descriptor ids,
-- DMA channels and locks.
pub mod BdId
pub mod Channel
pub mod LockId
