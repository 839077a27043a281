-- ===== src/Dma.antt =====
-- compiler/plugins/target/AMD-AIE/iree-amd-aie/Transforms/Utils/AMDAIEDmaUtils.h and .cpp: strided
-- access patterns of DMA operations, and the rewrites that merge, fold and expand them.
pub mod Pattern
pub mod Walk
pub mod Units
pub mod Linear
pub mod Repeat
pub mod Difference
pub mod Combine
pub mod Limits
pub mod Affine
pub mod Subsume
mod Tests
