-- ===== src/Lib.antt =====
-- A library of proofs about the AIE backend: the rewrites of DMA access patterns and the allocators
-- of hardware resources.
--
-- Dma models compiler/plugins/target/AMD-AIE/iree-amd-aie/Transforms/Utils/AMDAIEDmaUtils.cpp. The
-- three vectors of a strided access pattern are one list of dimensions (Dma.Pattern). Dma.Walk says
-- what a pattern means, the addresses that a DMA visits in their order, for any values of the
-- operands that are not constant. Dma.Units holds matchStridesOfUnitDims, mergeOffset and
-- foldUnitDims, Dma.Linear findFactorResultingInSmallerSize, expandLargeDimIntoLinearDims and
-- foldLinearDims, Dma.Repeat foldRepetitionCount and foldSingleDim, Dma.Difference
-- getGlobalOffsetDifference, Dma.Combine insertUnitDimension, mergeInFirst and
-- combineAccessPatterns, which uses most of the others. A call returns, fails, or runs into undefined
-- behaviour (a division by zero, a read out of range, a failed assertion). Integers are unbounded:
-- overflow of int64_t is modelled only for the stride in the expansion loop, where it is undefined. The
-- loop runs on fuel, one more round than the size, and the size at least halves in every round but the
-- last.
--
-- Dma.Limits holds DmaDimConfig and CircularDmaDimConfig of the same file and its header: the limits
-- of a DMA and the test of a pattern against them. Dma.Limits.Positions says the limits dimension by
-- dimension, without the vectors of the code.
--
-- Dma.Subsume models compiler/plugins/target/AMD-AIE/iree-amd-aie/Transforms/AMDAIEDmaLoopSubsumption.cpp:
-- a strided operation in a loop becomes one operation before it, with dimensions in front of its
-- patterns. Dma.Subsume.Pass is matchAndRewrite with the analysis of users, for which the uses and
-- the parents of an operation are given as data. Dma.Subsume.Run says what a nest of loops visits,
-- with the test of the upper bound before each round. Dma.Affine is RetrieveScaleAndBias, which reads
-- an affine.apply of one operand. A failed assertion, a null dereference and a read of an absent
-- constant are undefined behaviour.
--
-- Amsel models MSelGenerator and TileAMSelGenerator, and Amsel.Tiles AMSelGenerator, of
-- runtime/src/iree-amd-aie/aie_runtime/amsel_generator.cc. The search for groups of ports runs on
-- fuel, which is an argument; a result without enough fuel is told apart from a failure. Enough is
-- twice the work of the tile: the entries that the connections and the destination ports put into the
-- queue. Amsel.Runs is about a run of addConnections on a new generator.
--
-- Buffers models compiler/plugins/target/AMD-AIE/aie/AMDAIEAssignBufferAddresses.cpp for one tile:
-- basicAllocation, and bankAwareAllocation with the checks of preset addresses and banks and the
-- search for a window of banks. std::sort is a parameter, of which it is only assumed that its result
-- is a permutation of its argument. The float division that counts the banks is exact here, as it is
-- for memories of less than 2^24 bytes and banks of a power of two. Buffers.Presets says what is kept
-- of the buffers of a tile.
--
-- Device models runtime/src/iree-amd-aie/aie_runtime/iree_aie_runtime.cc as far as the device model
-- computes by itself: Device.Affinity is about getMemWest and its kin and hasLegalMemAffinity,
-- Device.Address about the fields of an address, Device.Header about getPacketHeader and
-- getControlHeader. The types of tiles and the constants of a device are parameters.
--
-- Packets models the masks of packet rules in runtime/src/iree-amd-aie/aie_runtime/iree_aie_router.cc,
-- updateGroupMask and verifyGroupsByMask, for one slave port. A mask is the function of its bits.
-- Packets.Groups is emitSlaveGroupsAndMasksRoutingConfig: the groups and the masks of every slave port,
-- the order of the groups, and the attempt to merge an id into a group, which is reverted where the
-- rules would send an id to a group that is not its own.
--
-- Router models addFlow (Router.Flow) and existsPathToDest (Router.Path) of the same file.
-- Router.Path.Wires says by itself how the switches of neighbours are wired. The
-- recursion of existsPathToDest runs on fuel, and fuel above the rank of a port is enough where a rank
-- goes down with every hop, as it does in settings without cycles.
--
-- Generators models runtime/src/iree-amd-aie/aie_runtime/Utils: Generators.BdId is
-- ChannelBdIdGenerator, Generators.Channel is ChannelGenerator and Generators.LockId is
-- LockIdGenerator. A state is a record or a function, a call returns its result with the next
-- state. The device model is a parameter. Loops over a range recur on the number of rounds that are
-- left.
--
-- Prelude has Boolean tests on the native numbers, lists over them, integers with division that
-- truncates, and finite sets as lists.
--
-- Not modelled: the path search of the router, the passes that build IR
-- through MLIR, the code that calls the vendor's driver library, the generation of binaries, and the drivers.
pub mod Amsel
pub mod Buffers
pub mod Device
pub mod Dma
pub mod Generators
pub mod Packets
pub mod Prelude
pub mod Router
