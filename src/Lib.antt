-- ===== src/Lib.antt =====
-- The network driver of the OpenNIC shell: what its own code does, and what holds of it.
--
-- The driver brings a QDMA device up as a network interface. Its probe reads a platform file, opens the
-- device through libqdma, enables the Ethernet port and registers an interface. When the interface goes
-- up it adds and starts queues in both directions; packets are mapped and handed to a transmit queue, and
-- their completion gives them back; the pages that a receive queue delivers become packets of the stack.
--
-- Files, by the part of the driver:
--   Kernel    the structures of onic.h and onic_json.h (Types), the calls that leave the driver (Calls),
--             and the state with the monad of its functions (Monad). Tally and Ledger read a log of calls,
--             Blocks reads the memory in it, and Steps carries a relation through a function; the
--             modules named Steps below do so for the functions of their part.
--   Queue     onic_main.c: onic_qdma_rx_queue_add, onic_qdma_{rx,tx}_queue_{setup,release},
--             onic_qdma_start, onic_qdma_stop.
--   Netdev    onic_main.c: onic_stats_alloc, onic_open, onic_stop, onic_isr_{rx,tx}_tophalf, onic_rx_poll.
--             Life has the interface as a machine of two states, with all its handlers as steps.
--   Tx        onic_main.c: onic_start_xmit, onic_tx_done, onic_unmap_free_pkt_data. Trace and Sequence
--             have transmissions and completions in any order as steps.
--   Rx        onic_main.c: onic_rx_deliver, onic_rx_pkt_process.
--   Stats     onic_main.c: onic_set_mac_address, onic_do_ioctl, onic_change_mtu, onic_get_stats64.
--             Traffic has the packets of both directions as steps, and a plain count of them.
--   Setup     onic_main.c: onic_set_num_queue, onic_arr_find, onic_qdma_csr_index_setup, onic_qdma_setup.
--             Report has the device's report of its tables in the log.
--   Register  onic_register.h, all of its offsets.
--   Cmac      onic_main.c: onic_rx_lane_aligned, onic_disable_cmac, onic_enable_cmac, onic_init_reta.
--             Wait has the wait for the reset, Lanes and Enable have the ends of onic_enable_cmac.
--   Ethtool   onic_ethtool.c: onic_get_drvinfo, onic_set_ethtool_ops.
--   Json      onic_json.c: jsoneq, onic_get_platform_info. Texts, Settings and Written have what a file of
--             settings says of each field.
--   Probe     onic_main.c: onic_get_pinfo, onic_pci_probe, onic_pci_remove, onic_module_init,
--             onic_module_exit. Installed has the state after a probe; Lifetime and Queues join the
--             probe, the life of the interface and the removal; Failures and Blocks have its memory.
--   Tests     a concrete kernel and device, and runs on them.
--   Base      the numbers, tests, lists and lemmas that all parts share.
--
-- How a function is modelled. A function of the driver is a function from an environment and a world to
-- a result and a world. The world has the driver's private structure, the network device, the memory of
-- the counters and the log of all calls that have left the driver, each with its answer. The environment
-- is everything outside: it answers a call by the calls that came before, in any way. A label at the end
-- of a C function, and each part of a function behind a branch, is a definition of its own where a
-- theorem speaks of it. What a theorem says of resources it says of the log, as an equation between
-- numbers of calls. Where a theorem relies on the environment, the assumption is named:
-- HandlesFollow (Queue/Setup), the handles that libqdma gives to queues follow one another;
-- ParsersFit (Probe/Ranges), the kernel's parsers return values of their types; CopiesString (Ethtool),
-- strlcpy copies what fits; PullsHeader (Rx/Deliver), eth_type_trans pulls the Ethernet header.
--
-- Loops of the source with a bound are recursions on the number of rounds left. The wait for the reset in
-- onic_enable_cmac has no bound in the source; it runs on a number of rounds, and Cmac/Wait says how many
-- are enough. The loop over the tokens of the platform file has as many rounds as there are tokens, and
-- each round takes at least one.
--
-- Numbers are the native natural numbers with the wrap-around of their C type written out, `int` results
-- are integers, and a pointer is its address, 0 for NULL.
--
-- Not modelled: libqdma and jsmn, which are copies of other projects and stand behind the calls; the
-- messages that the driver prints; what is in the tables of functions that the driver hands to the
-- kernel; concurrency of the handlers, which run one after another here; the
-- overflow of the array of scatter-gather entries of a request and of the address array of the platform
-- information, where the lists of the model go on or end; a chain of entries that is shorter
-- than its count, on which the source would follow a NULL pointer in onic_rx_pkt_process and the loop of
-- the model ends; a negative quota of onic_rx_poll, which the source would compare as unsigned; and the
-- write of onic_rx_deliver to the first entry of the chain, which the caller does not see here.
pub mod Base
pub mod Kernel
pub mod Queue
pub mod Netdev
pub mod Tx
pub mod Rx
pub mod Setup
pub mod Stats
pub mod Register
pub mod Cmac
pub mod Ethtool
pub mod Json
pub mod Probe
mod Tests
