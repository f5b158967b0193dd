-- ===== src/Lib.antt =====
-- Verification of the transport core of mpquic-sbd: a multipath QUIC in Go (src/quic-go) whose STREAM
-- and ACK frames carry what shared-bottleneck detection (SBD) needs.
--
-- The program. A session reads packets: the public header gives a truncated packet number, which is
-- inferred from the last one of its path; the payload is a sequence of frames. Each path has a
-- handler for the received packets, which keeps their numbers as intervals and decides when an ACK
-- frame with them is sent, and one for the packets it has sent, which takes out those that ACK
-- frames acknowledge and queues those that are lost, by the ACKs or by its alarm, to be sent again.
-- STREAM frames go through flow control, for the stream and for the connection, and each stream's
-- sorter puts them in order, from which Read copies them. The map of streams opens and removes them
-- and iterates over them: the framer takes from each what was written to it, and from its queue
-- what was lost, and the packer composes packets of these STREAM frames and of control frames. The
-- scheduler chooses the path of a packet, and the path's generator its number; round-trip times and
-- slow start are kept for congestion control. SBD groups the paths by statistics of their delays
-- and losses.
--
-- The files and the code (paths below src/quic-go):
--   Base, Base/*        numbers, lists, options and results that the modules share; the integers of versions
--   Protocol            internal/protocol/packet_number.go: InferPacketNumber, closestTo, delta and the
--                       choice of a packet number's length
--   Protocol/Infer      its proofs
--   Wire/Bytes          internal/utils/byteorder*.go: readers and writers in both byte orders; Wire/Bytes/Order
--                       has the proofs
--   Wire/Float16        internal/utils/float16.go; Wire/Float16/Precision has the proofs
--   Wire/Stream         internal/wire/stream_frame.go: ParseStreamFrame, Write, MinLength; Wire/Stream/RoundTrip
--   Wire/Control        internal/wire: WINDOW_UPDATE, RST_STREAM, BLOCKED, GOAWAY, CONNECTION_CLOSE and
--                       STOP_WAITING frames; Wire/Control/RoundTrip has the proofs
--   Wire/Ack            internal/wire/ack_frame.go: ranges, validateAckRanges, AcksPacket, the numbers of
--                       blocks, MinLength; Wire/Ack/Codec has ParseAckFrame and Write; Acked and Length
--                       have the proofs
--   AckHandler/History  ackhandler/received_packet_history.go: ReceivedPacket, DeleteUpTo, GetAckRanges.
--                       Invariant, Contents and Canonical: the intervals against the set of numbers
--   AckHandler/Received ackhandler/received_packet_handler.go: ReceivedPacket, SetLowerLimit, maybeQueueAck,
--                       GetAckFrame; Acknowledges has the frames sent, Tracking and Bounds what each
--                       call keeps, Reachable the calls as steps, also those that fail
--   AckHandler/Packet   ackhandler/packet.go and retransmittable.go; AckHandler/Packet/StopWaiting is
--                       ackhandler/stop_waiting_manager.go
--   AckHandler/Sent     ackhandler/sent_packet_handler.go: constants, errors and determineNewlyAckedPackets;
--                       Sent/Handler has the state and the methods. Acked, Removal, InFlight, Sending, Taking,
--                       Reachable (with the step relation) and Safety have the proofs
--   Flow/Controller     internal/flowcontrol/flow_controller.go; Flow/Controller/Windows has the proofs
--   Flow/Manager        internal/flowcontrol/flow_control_manager.go; Flow/Manager/Windows has the proofs
--   Sbd/Grouping        flow_grouping.go: setup, splitCongestion, splitFlows, splitSkewness, processOwds,
--                       FlowGroups; Partition, Neighbours and Hysteresis have the proofs
--   Congestion/Prr      congestion/prr_sender.go: PrrSender; Congestion/Prr/Bound has the steps of a recovery
--   Congestion/SlowStart congestion/hybrid_slow_start.go; SlowStart/Round has the samples of a round
--   Congestion/RttStats congestion/rtt_stats.go; Order and Reachable (with the calls as steps) have the proofs
--   Streams/Sorter      stream_frame_sorter.go: Push, Pop, Head; Gaps, Filled, Stored and Received have the gaps
--                       against the bytes that arrived, Queue and Delivery what Pop hands out
--   Streams/Open        streams_map.go: the map of streams; Iteration has Iterate and RoundRobinIterate. Ids,
--                       Counted, Opening and Reachable (with the step relation) have the proofs,
--                       Visited has what an iteration keeps
--   Streams/Stream      stream.go: Read; Streams/Stream/Methods has the other methods. Rounds, Reading, Taken
--                       and Reachable (with the calls as steps) have the proofs
--   Streams/Framer      stream_framer.go: the queues and the frames that are sent again; Framer/Normal has
--                       maybePopNormalFrames and PopStreamFrames. Retransmission, Given and Sent have the proofs
--   Session/Numbers     packet_number_generator.go, with its proofs
--   Session/Scheduler   scheduler.go: selectPathLowLatency and selectPathRoundRobin; Compare and Choice have
--                       the proofs
--   Session/Frames      internal/wire: the frames beside STREAM frames, with MinLength
--   Session/Packer      packet_packer.go: composeNextPacket and QueueControlFrame; Packer/Fits has the proofs
--   Examples/*          the results below at concrete values
--
-- How the code is modelled. Machine integers are natural numbers with their wrap-around written
-- out. A bytes.Reader is the list of the bytes left, a bytes.Buffer the list of those written, and
-- an error or a panic is a value. Stateful objects are records that each method maps to the next
-- one, also where it fails; a mutex makes a method one step, and of Read, which takes it twice in a
-- round and not for the copy between, a round is one. Linked lists and maps are lists. time.Now() is an argument,
-- the zero time is none, and durations are nanoseconds. Loops are structural recursions on the list
-- or the count that they go through, so that no fuel is needed; the search for a float's exponent
-- is its five rounds written out. float64 and sort.Slice are parameters of the grouping, and
-- float32 one of the RTT statistics; that sort.Slice permutes its slice is the one thing that is
-- assumed of them. The sent packet handler calls its congestion control through an interface,
-- SendAlgorithm, which is a parameter with no assumption on it; the RTTStats that the two share are
-- part of its state. retransmitAllPackets runs until no packet is in flight: its rounds are the
-- length of the history, since each takes a packet out; the loop of GetOrOpenStream has its rounds
-- computed beforehand, and that of Read has a round for each byte wanted and each frame queued,
-- since each round reads a byte or pops a frame. A wait on a channel ends a step, where the
-- call has not returned yet: it goes on with another round, or is made again; whether a deadline has passed is an argument. Pointers to streams are ids, and what
-- they point to is a function of them. The packer counts a frame by its MinLength, which for a
-- PATHS frame wraps at 256. The callback of a retransmission timeout is a parameter too. Flow control
-- multiplies by the float 1.5, which is exact below 2 ^ 52.
--
-- Not modelled: the cubic and OLIA senders, the SBD statistics and what compute_sbd.go makes of the
-- groups, the sealing of packets, the codecs of the multipath frames and of the public header;
-- sessions, sockets and timers (concurrent I/O); cryptography and HTTP (calls of libraries); the
-- copy of Caddy in src/caddy and the Python experiments.
pub mod Base
pub mod Protocol
pub mod Wire
pub mod AckHandler
pub mod Flow
pub mod Streams
pub mod Sbd
pub mod Congestion
pub mod Session
pub mod Examples
