-- ===== src/Lib.antt =====
-- A model of the runtime for speculative pipelined loops of this repository, in three parts that
-- stand beside each other as the code does: each is a description of the same protocol at another
-- level, and shares only the helpers of Prelude with the others.
--
-- Cost: simplified_translation/. The code runs the workers one after the other on queues that are
-- tallies, and adds the price of each action to `__cost`. Cost.Constants expands the macros of
-- constants.h as the preprocessor does: NUM_WORKERS is text without parentheses, so that its
-- meaning differs from place to place. Cost.Machine holds the globals as a record, and runs code
-- as a function from states to an outcome: a result with the next state, a fault (an access out of
-- bounds, which C leaves undefined), or the end of the fuel. Cost.Queue, Cost.Heap, Cost.Packet,
-- Cost.Invariant and Cost.Loop model queue.c, heap.c, packet.c, invariant.c and loopevent_trans.c,
-- function for function under the names of the code less its prefix `__specpriv_`. Cost.Valid is
-- the invariant, Cost.Bounds and Cost.Machine.Rules the rules to reason about returning, costing
-- and staying in range.
--
-- Smtx: translation/. Smtx.Queue models the operations `__sw_queue_*` of queue.c on the array of
-- words, with indices for pointers, and Smtx.Queue.Steps the same operations as the loads and
-- stores of one producer and one consumer that run at the same time, one of which happens at each
-- turn, in program order; the consumer there asks `__sw_queue_empty` before each
-- `__sw_queue_consume`, as busy_wait does and `__specpriv_begin_iter` does not. Smtx.Packet models
-- the search of packet.c through a pool of packets, and Smtx.Mapping what both files map and
-- unmap, as the list of their calls of mmap and munmap, with the tables of pointers that the start
-- writes and the end reads; what a fresh table holds is a parameter. Smtx.Loop models
-- loopevent_trans.c, heap.c and the macros that they use: a memory of queues, packets by address
-- and pools, and code as a function from memories to an outcome (a value with the next memory, a
-- fault, a failed assertion, or the end of the fuel). Smtx.Loop.Receive has
-- `__specpriv_begin_iter` and busy_wait, Smtx.Loop.Forward forward_packet, forward_pair and
-- `__specpriv_end_iter`, Smtx.Loop.Invocation the setup and the end of an invocation and main.
-- malloc, the macros GET_ASSIGNED_HEAP and GET_FIRST_WID_OF_STAGE, the updates of the shadow,
-- which no file of the repository defines, and the variable of busy_wait that is initialised with
-- itself are parameters; the functions that stand for a cost are logged.
--
-- Worker: loopevent_orig.cpp, the runtime itself. Worker.Shadow models the scans over a page of
-- shadow memory (clear_read, is_ro_page, check_nrbw), Worker.Forward the sending of pages
-- (forward_ro_page, buffer_ro_page, forward_pair and a round of the loops of end_iter), and
-- Worker.Iteration the turns (run_iteration, pipeline_fill_iter) and end_iter as a whole, and
-- Worker.Start begin_iter with check_misspec, as the calls to other files in their order.
-- Worker.Region models the loops over whole heaps (check_region_nrbw, forward_region and their
-- versioned kin), Worker.Invocation begin_invocation and end_invocation, and Worker.Clean the copy
-- in loopevent.cpp, which Worker.Clean.Same and Worker.Clean.SameIter compare with the original. What
-- forward_page, forward_packet and the broadcasts send is a list of their calls, since they stand
-- in other files of the runtime, as do set_zero_page, is_zero_page, the macros on stages,
-- advance_iter and the updates of predicted values: these are parameters, in the records Platform,
-- Stages and Runtime, and the records IsPlatform and IsStage say what the code relies on.
--
-- Numbers: an `int` that can be negative is an integer, a word of shadow memory a natural number,
-- and unsigned arithmetic on worker numbers is taken modulo 2 ^ 32. `__cost` is a natural number,
-- without the limit of the `int` of the code.
--
-- Fuel: the `while` loops of the cost model's `__specpriv_begin_iter` and busy_wait take at most one
-- round for each packet and one more, and no tally passes 16, so fuel above 16 is enough; those of
-- translation/loopevent_trans.c need one round for each message or packet and one more;
-- `__sw_queue_clear` one for each value and one more; the search for an available packet as many
-- rounds as the pool has packets, and no number is enough where none is available. The wait of
-- begin_iter for the commit process takes as many rounds as the flag is read unset, and a loop over
-- a heap one for each page and one more. All other loops are structural.
--
-- Not modelled: create_packet of translation/packet.c is a call of malloc; its arguments are not
-- used. Profiling is off. isolated_func_analysis.cpp repeats functions of loopevent.cpp with other
-- comments. The turns of Smtx.Queue.Steps take effect at once and in program order: reordering by
-- a compiler or a weaker machine is left out, though the code does not exclude it.
pub mod Prelude
pub mod Cost
pub mod Smtx
pub mod Worker
