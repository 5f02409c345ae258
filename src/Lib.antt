-- ===== src/Lib.antt =====
-- Zhuge cuts the control loop of real-time video over a wireless last mile short: the access point
-- estimates the delay that a packet will see in its queue, and lets the sender know at once, by
-- holding back the ACKs of TCP flows or by sending reports for the UDP flow of the video. The
-- repository is a patch of ns-3.34; all paths below start at ns-3.34-diff/src.
--
-- The parts, and the files that model them:
--   * Delay: `DeltaDelay` of zhuge/model/delta-delay.cc, the recent changes of the queueing delay, from
--     which the delay of an ACK is drawn. Delay/Clear, Delay/Tokens and Delay/Sample prove what ageing,
--     tokens and sampling do. The state is the four deques as lists of stamped entries.
--   * Zhuge: `NetworkQueueZhuge` of zhuge/model/network-queue-zhuge.cc. Zhuge/Rate is `UpdateTxRate`,
--     Zhuge/QueueDelay is `CalculateTotalDelayMs` and `SetAckDelay`, Zhuge/Acks is `OnRecv_snddev`,
--     Zhuge/Receive is `OnRecv_rcvdev`, Zhuge/Sendback is `Sendback`, and Zhuge/History runs sequences of
--     these events. The state holds a `DeltaDelay`; Receive feeds it and Acks samples it.
--   * Wire: the headers of bitrate-ctrl/model/network-packet-header.cc. Wire/Video has the headers of
--     fixed size, Wire/Lists those of FEC packets and acknowledgements, Wire/NetState the report that
--     receivers and the access point send. Wire/BigEndian is a buffer of bytes.
--   * Group: `PacketBatch` and `PacketGroup` of bitrate-ctrl/model/fec-policy/packet-group.cc in Group/Batch
--     and Group/Frames: the receiver's packets of one frame, and the recovery of lost ones.
--   * Sender: `SenderBasedController` of bitrate-ctrl/model/congestion-control/sender-based-controller.cc:
--     Sender/Send is `processSendPacket`, Sender/Feedback `processFeedback`, Sender/Metrics the metrics.
--   * Receiver: bitrate-ctrl/model/packet-receiver-udp.cc: Receiver/Groups is `ReceiveUdpPacket`, over the
--     groups of Group, and Receiver/Loss the loss sequence of `Feedback_NetState`.
--   * Transmit: `PacketSenderUdp` of bitrate-ctrl/model/packet-sender-udp.cc. Transmit/Fragment cuts a frame
--     into packets and Transmit/Batch numbers them and adds FEC packets; Transmit/Frames is `SendPackets` and
--     `CreateFrame`, where Blocks says what a group with its FEC packets is; Transmit/History keeps packets until they are acknowledged, and Transmit/Retransmit
--     sends them again; Transmit/Window is `SendPacket` with its queue and its windows; Transmit/Acks and
--     Transmit/Bursts react to acknowledgements and reports. A packet is an object behind a reference,
--     which the queue and the history share. Bursts talks to its controller through the record `Controls`,
--     of which `base_controls` is the instance that Sender gives.
--   * Decoder: `VideoFrame` and `VideoDecoder` of bitrate-ctrl/model/video-decoder.cc, the order in which
--     the packets of Receiver make frames play. Decoder/Play proves what the loop over complete frames
--     does, Decoder/Discard the loop over late ones, Decoder/Next what a packet does.
--   * Copa: `TcpCopa` of internet/model/tcp-copa.cc. Copa.antt has its deques of round trips and
--     `tcp_detected`, Copa/Velocity the velocity, and Copa/Control `ReportMeasurement` and `CongControl`,
--     which puts them together.
--   * Prelude: names, Boolean tests, lists and integers over the native numbers, and words.
--
-- How the code is modelled. A class is a record, a method a function to the next state, and an
-- assertion, `NS_FATAL_ERROR` or undefined behaviour of a container is `none`. Unsigned integers are
-- native numbers with their wrap-around written out (`add_w`, `sub_w`, `u32`); signed ones and times,
-- in nanoseconds where they are subtracted, are integers. Loops are structural recursion over the
-- container that they walk, so that they need no fuel; the loop that cuts a frame and the one that
-- divides it into groups have fuel for one turn more than they can make, which is proved enough. A loop that reads the front of a deque without
-- asking whether there is one gives `none` there; the theorems say where that is not reached.
--
-- What is a parameter: in Delay the uniform draw, which each call is given anew, and the product of a
-- time and a quotient in `double`; in Zhuge/QueueDelay the conversion of a quotient in `double` to milliseconds; in Wire the
-- buffer of ns-3, with the law that reading gives back what was written, and the two conversions of
-- the loss rate; in Group the element that stands in front of an unordered map; in
-- Transmit the FEC policy, the size of a packet on the network, the order in which the map of a group is
-- read, and the smoothing of the dispersion; in Copa what is computed in `double`
-- and the best round trips of the windowed filters. Each has named laws,
-- and the tests give an instance.
--
-- What is not modelled: the set-up of sockets, devices and callbacks, logging, `Print`, and the
-- retransmission request header; the record of received ids in `OnSocketRecv_receiver`; arithmetic on
-- floats of the loss intervals, rates and round-trip times; pacing by a timer, which the constructor
-- turns off; the TCP applications, the FEC policies, the video encoder,
-- the NADA, GCC and ABC controllers, the pacing rate of Copa and the queues that Zhuge is compared with.
-- The copy of the WebRTC base library belongs to another project.
pub mod Prelude
pub mod Delay
pub mod Transmit
pub mod Zhuge
pub mod Copa
pub mod Decoder
pub mod Wire
pub mod Group
pub mod Sender
pub mod Receiver
