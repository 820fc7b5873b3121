-- ===== src/Lib.antt =====
-- Verification of OpenBSC, the base station controller of a GSM network.
--
-- The controller allots the logical channels of its base stations, pages and admits subscribers, hands
-- connections over between cells, and, as a switching centre, keeps the transactions and the queue of
-- short messages. What is modelled:
--
-- Base: the shared notation, lists and options over native numbers, and the bits of C words.
--
-- Nm: the state of a managed object, and `nm_is_running` of openbsc/src/libbsc/abis_nm.c.
--
-- AccRamp: openbsc/src/libbsc/acc_ramp.c and openbsc/include/openbsc/acc_ramp.h, which let the
-- access classes into a cell step by step. A `Cell` is the base station's part, the ramp and the
-- barred classes of every broadcast of system information. The pending timer is its delay;
-- `timer_expires` is the callback. Signal has the decision of `acc_ramp_nm_sig_cb`, which starts or
-- stops the ramp on a change that the network management reports. `ffs` looks at ten bits, all that
-- the mask of barred classes has.
--
-- ChanAlloc: openbsc/src/libbsc/chan_alloc.c, the channel allocator, over the transceivers,
-- timeslots and channels of a base station. A channel is named by its place, and the loops that
-- return the first hit are `find_first` over the list of the indices in the order of the loop. Free
-- has `lchan_free`, `lchan_reset` and `lchan_release`, Load the channel load, T3122 the wait
-- indication that follows from the load, with 32-bit and 64-bit sums and a failed assertion as
-- `none`; Places, Search, Alloc, Distinct, NoRoom and Wait have the proofs.
--
-- Oap: openbsc/src/libcommon/oap_client.c, the client of the authentication protocol. The decoder
-- of messages and the generator of authentication vectors are libosmocore's and are parameters of
-- the model, with nothing assumed of them.
--
-- Trans: openbsc/src/libmsc/transaction.c, the list of transactions, with the assignment of their
-- identifiers. `1 << id` is a number of 32 bits.
--
-- Paging: openbsc/src/libbsc/paging.c, the paging requests of a base station: the queue, the free
-- slots, the work and credit timers, T3113, and the test of the load, which uses ChanAlloc. Live has
-- the step relation of everything that can happen, Credit the work over many expirations of the timer,
-- Stop the end of a request, Area the base stations of a location area. The message that is sent is
-- the request that `page_ms` is called with.
--
-- Rewrite: openbsc/src/osmo-bsc_nat/bsc_nat_rewrite_trie.c, the rules for called numbers of the NAT,
-- in a trie. Lookup has the search, Install the insertion, Parse the file of rules.
--
-- Measure: openbsc/src/libbsc/meas_rep.c, the averages and counts over the ring of measurement reports
-- of a channel, with indices of 32 bits. Ring has the loops, History the list of reports that were
-- received on top of those that the ring held, Window the windows that are longer than the ring.
--
-- Decision: openbsc/src/libbsc/handover_decision.c, the levels of the neighbour cells (Neighbours),
-- the choice of the best (Best) and the handling of a report (Process), over the ring of Measure. A
-- decision is the base station that a handover is started to; the conversion of levels to dBm is
-- libosmocore's and a parameter.
--
-- Handover: openbsc/src/libbsc/handover_logic.c, what follows from the decision: the pending
-- handovers with the pointers between channels and connections (Pointers), their start (Start), the
-- answers and ends (Valid, Settled), and the step relation (Ends). The channel that ChanAlloc allots
-- is an argument. Assignment has the assignments of openbsc/src/libbsc/bsc_api.c, which change the
-- same pointers. The code checks neither that a handover starts from the channel of its connection
-- nor, when an assignment is completed, that no handover is pending: the step relation asks for both
-- (`CanStart`, `IsSettled`).
--
-- Rf: openbsc/src/libbsc/bsc_rf_ctrl.c, the radio of all base stations switched on and off, and
-- openbsc/src/osmo-bsc/osmo_bsc_grace.c, what is allowed in the grace period (Grace), which pages by
-- the functions of Paging. Timers has the step relation, Lock the effect of the commands.
--
-- SmsQueue: openbsc/src/libmsc/sms_queue.c, the queue of the messages that are being delivered.
-- Submit has the loop that fills it, Events the signals and settings, Keeps the single operations,
-- Signals the step relation. Tables has the queries of openbsc/src/libmsc/db.c for the messages of
-- the queue, over the tables and the subscribers in memory of openbsc/src/libmsc/gsm_subscriber.c.
-- Messages and receivers are found by the extension: the tables may change between two signals, but
-- an extension stays with its subscriber and a message with its destination (`Stored`), which the
-- code does not ensure.
--
-- Sccp: openbsc/src/osmo-bsc_nat/bsc_sccp.c, the connections of the NAT with the references that it
-- assigns towards the MSC (Assign) and patches in messages of both directions (Unique). Assign has
-- the fuel of two rounds through all references, which is what the loop of the code runs at most.
--
-- Auth: openbsc/src/libmsc/auth.c with the two rows of openbsc/src/libmsc/db.c that it uses. Tuples
-- has the use counts and key sequences. Security has the security operation of a connection, from
-- `gsm48_secure_channel` to the responses of the phone in openbsc/src/libmsc/gsm_04_08.c and
-- `msc_ciph_m_compl` of openbsc/src/libmsc/osmo_msc.c, Response the octets of a response, and
-- Ciphering what a command to cipher needs. The COMP128 functions are parameters, and the callback of
-- an operation is an output.
--
-- Call: openbsc/src/libmsc/gsm_04_08.c, the call control of one call: its state, timer and reference,
-- and what is sent. Handlers has the functions gsm48_cc_rx_* and gsm48_cc_tx_*, Events the tables that
-- choose among them, the timers, paging and release; Sound the invariant, Ends the step relation,
-- Expirations what comes of silence. The application behind MNCC is connected at the socket, so that
-- it answers after a handler has ended; that the socket is closed is a step that frees the call. The
-- answers that openbsc/src/libmsc/mncc_sock.c and mncc_builtin.c give within a handler are left out.
-- The identifier that Trans assigns is an argument.
--
-- ArfcnRange: openbsc/src/libbsc/arfcn_range_encode.c and `enc_freq_lst_range` with the functions it
-- calls of system_information.c, the range formats of frequency lists. Window, Split and Sides have
-- the halves of a range and the index at which a list is split, Places and Tree where the entries
-- stand, Decode the decoding of 3GPP TS 44.018, RoundTrip the two together, Filtered the frequencies
-- without F0. Octets has `write_all_wn` and the four formats; below it, Slice, Entry and Levels have
-- the bits that are written, Read and Formats the reading of the octets, Ascending the lists of
-- frequencies, Whole the way from them to what is read, Select the frequencies of a bit vector that
-- are used, and Announced the way from the vector to what is read. The fuel of the encoder is the
-- depth of the tree, the number of bits of the range, and that of an entry's bits is their number.
-- The bit vector and the bands of the frequencies are libosmocore's and parameters.
--
-- AccRamp reads the channel load that ChanAlloc averages, and both ask Nm whether a transceiver runs.
-- All loops are structural: over lists, over the ten access classes, the eight timeslots and the seven
-- identifiers, so that only Sccp and ArfcnRange need fuel; the loop of SmsQueue counts down the 1000
-- rounds that the code allows. Pointers are places or numbers; timers are whether or for how long they
-- are pending; calls into other parts and signals are lists of events.
--
-- Not modelled: logging and statistics, sockets, data base and VTY, the encoding and parsing of the
-- messages of the Abis, A and MGCP interfaces, the media gateway, the NAT but for its rewrite rules
-- and connections, and the protocols of the MSC part but for call control, which mostly build and parse
-- messages.
pub mod Base
pub mod Nm
pub mod AccRamp
pub mod ChanAlloc
pub mod Oap
pub mod Trans
pub mod Paging
pub mod Rewrite
pub mod Measure
pub mod Decision
pub mod Handover
pub mod Rf
pub mod SmsQueue
pub mod Sccp
pub mod Auth
pub mod Call
pub mod ArfcnRange
