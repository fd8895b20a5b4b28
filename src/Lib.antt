-- ===== src/Lib.antt =====
-- Verification of yifei, a C library for event-driven servers: base structures, an event driver
-- and a bridge that hands tasks to workers.
--
-- The parts and the code that they model, with paths from the repository's root:
-- - Core: the status codes and the magic value of src/base_struct/yf_core.h.
-- - BitOp: src/base_struct/yf_bit_op.h and yf_bit_op.c. `yf_mod` and `yf_align` are the bit
--   masks of the macros; the loop of `yf_bit_cnt` has fuel 64, one round for each bit of its
--   `yf_u64_t` argument, and the rows of `yf_bit_indexs` have 16 bits. The parts of a
--   `yf_bit_set_t` are taken from its number, and the end tick is the end of a list.
-- - CircularBuf: src/base_struct/yf_circular_buf.h and yf_circular_buf.c. CircularBuf.antt has
--   the record and the macros, CircularBuf/Space.antt the direct interface and the growth,
--   CircularBuf/File.antt the interface of a file. Sums and distances that the code keeps in an
--   `yf_s32_t` are cut to its 32 bits; a valid buffer has blocks so small that 256 of them, the most
--   that a ring has, take less than 2^31 bytes.
--   What `yf_alloc` gives is a list of blocks, and the end of the list is its failure. The loops
--   of `yf_cb_fread` and `yf_cb_fwrite` have the number of bytes as fuel, and each round but the
--   last moves a whole block, which has at least one byte.
-- - TaskQueue: src/bridge/bridge_in/yf_bridge_task.h and yf_bridge_task.c. How a header lies in
--   memory is the compiler's choice, so its bytes are a parameter, the record `HeadLayout`. A
--   failed `assert` is a result of its own. The lengths in the queue are numbers without a bound
--   except for the two that can lose bits: the required length of a push, and the 32-bit length
--   in a header, whose time is cut to 32 bits too. Reader and writer take turns in the model.
-- - IdSeed: src/base_struct/yf_id_seed.h and yf_id_seed.c. The shared counter and factor are a
--   record that each operation takes and gives back; the clock is an argument.
-- - NodePool: src/base_struct/yf_node_pool.h and yf_node_pool.c. A node's address is its index,
--   and the free list that the code threads through the nodes is a list of indices.
--   NodePool/Chunks.antt and NodePool/Growth.antt have the pool of chunks; `qsort` is a parameter.
-- - NumberText: `yf_sprintf_num` of src/base_struct/yf_string.c. The digits have the 20 characters of
--   its array as fuel, and a 64-bit number has no more.
-- - Search: the macro `yf_bsearch` of src/base_struct/yf_core.h, with the number of items as fuel.
--   The comparison is a parameter; `yf_bsearch_cmp` is cut to the 32 bits of the `int` of its result.
-- - SlabPool: src/base_struct/yf_slab_pool.h and yf_slab_pool.c. A free block is the address of its
--   data, with the tricks in a function of their address; `yf_palloc` answers with an address or
--   none, and the alignment is 8. The sort has the number of sizes as fuel, one round for each.
-- - LinkedList: src/base_struct/yf_list.h, on links in memory as functions of the address.
-- - Timer: src/mio_driver/event_in/yf_tm_event_in.h and yf_tm_event_in.c, the wheels of timers.
--   A list holds the numbers of its timers, and a poll answers for which timers the handlers run.
--   The clock does not go back between two polls but by `yf_on_time_reset`. The walk over the too
--   far list has fuel, and running out of it is a result of its own.
-- - RbTree: src/base_struct/yf_rbtree.h and yf_rbtree.c, on nodes in memory as functions of the
--   address. `Side` stands for left and right: the code writes each function out for both, and the
--   model has one definition that takes the side. The comparison of the tree is a parameter, and
--   the order of the nodes is given by ranks. Each loop has fuel, and a round more than there are
--   nodes is enough for those of insertion, search and traversal. RbTree/Walk.antt has the steps,
--   the loops and the search, RbTree/Delete.antt the deletion.
-- - MemPool: src/base_struct/yf_mem_pool.h and yf_mem_pool.c, on 64-bit platforms, with the
--   cleanup handlers, the reset and the end of a pool in MemPool/Cleanups.antt. What `malloc` and
--   `memalign` answer is a list of addresses: each call takes one, and the end of the list is
--   their failure. Blocks are a list in the order of `next`, and what is freed is a result.
-- - Array: src/base_struct/yf_array.h and yf_array.c, on the memory pool, with the bytes of memory
--   as a function of their address.
--
-- The components use each other as in the code: arrays stand in memory pools, the circular buffer,
-- the ids, the node pool and the memory pool take the alignment of BitOp, both rings move bytes by
-- the `memcpy` of Bytes, and Bytes has the algebra of writing over a list that the theorems on both
-- rings share.
--
-- Not modelled: log output, the system's calls behind src/ppc and src/mio_driver/fd_poller, and
-- the threads, processes and signals of src/bridge. The hash tables,
-- chains of buffers and the other functions on strings are not part of the model.
pub mod Prelude
pub mod Bytes
pub mod Core
pub mod TaskQueue
pub mod BitOp
pub mod CircularBuf
pub mod IdSeed
pub mod NodePool
pub mod Search
pub mod SlabPool
pub mod NumberText
pub mod Timer
pub mod LinkedList
pub mod RbTree
pub mod MemPool
pub mod Array
pub mod Tests
