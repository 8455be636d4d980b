-- ===== src/Lib.antt =====
-- aqua-sim-ng, an underwater network simulator on ns-3: a model of its own logic, with proofs.
--
-- The program. A node of the simulation has a net device with a routing protocol above a MAC and a
-- physical layer. A routing protocol gets packets from the layer above and from the MAC by its
-- `Recv`, hands packets to the MAC by `SendDown` and to the layer above by `SendUp`
-- (model/aqua-sim-routing.cc), and asks ns-3 to call it back later. A MAC gets packets from above
-- by `TxProcess` and from the physical layer by `RecvProcess`. Seven parts are modelled. UW-AODV
-- (model/aqua-sim-routing-uw-aodv.cc and .h), a routing protocol that discovers routes by flooded
-- requests and keeps them in a table, is there with the classes that it stands on. The routing
-- buffer (model/aqua-sim-routing-buffer.cc and .h) is a linked queue of packets. Slotted FAMA
-- (model/aqua-sim-mac-sfama.cc and .h) is a MAC that reserves the medium by an RTS and a CTS,
-- sends a train of data packets and waits for an ACK, each at the beginning of a slot. ALOHA
-- (model/aqua-sim-mac-aloha.cc and .h) is a MAC that sends at once, waits for an ACK and backs
-- off. Named data networking (model/ndn) forwards requests for names and the data that answers them
-- by a PIT, a FIB and a content store. Two headers of model/aqua-sim-header-mac.cc have a form that
-- varies: that of LIBRA with the type of frame, that of JMAC with the nodes of its schedule.
--
-- The files.
--   Prelude             tests, lists, and std::map and std::set as sorted association lists
--   Address             model/aqua-sim-address.cc and .h; `Address/Order` relates bytes to integers
--   Packet              the fields of AquaSimHeader (model/aqua-sim-header.cc), and a packet's payload
--   Aodv/Header, Codec  AquaSimUWAodvHeader: SetUnknownDestSeqNo, Serialize, Deserialize
--   Aodv/SeqNo          IsSeqNoNewer
--   Aodv/State          the fields of AquaSimUWAodvRouting, its attributes, and what it asks of ns-3
--   Aodv/Table          LookupRoute, LookupAnyRoute, ShouldUpdateRoute, RouteIsFreshEnough,
--                       UpdateRoute, AddPrecursor, InvalidateRoute, ShouldAcceptRerr
--   Aodv/Send           SendUp, SendDown, new packets, GetRreqJitter
--   Aodv/Rerr           SendRerr, ForwardRerr, RecvRerr
--   Aodv/Data           PrepareDataPacket, ForwardDataPacket, BroadcastDataPacket,
--                       DeliverDataPacket, EnqueuePacket, SendQueuedPackets, DropQueuedPackets
--   Aodv/Discovery      GetRreqHopLimit, GetRreqTimeout, SendRreq, StartRouteDiscovery,
--                       RouteRequestTimeout
--   Aodv/Reply          SendRrep, QueueRrepCandidate, SendCollectedRrep, IsBetterRreqCandidate,
--                       ForwardRrep
--   Aodv/Hello          MaybeStartHello, SendHello, UpdateNeighbor, PurgeDeadNeighbors,
--                       InvalidateRoutesViaNeighbor, RecvHello
--   Aodv/Recv           Recv, RecvAodvPacket, RouteOutput, RecvData, RecvRreq, RecvRrep, DoDispose
--   Aodv/Invariant      what every one of these keeps
--   Aodv/Run            the entry points called any number of times, in any order
--   Queues/Heap         cells at addresses, and the runs that follow a null pointer or do not end
--   Queues/RoutingBuffer  AquaSimRoutingBuffer: Head, Dehead, DeQueue, LookupCopy, AddNewPacket,
--                       CopyNewPacket, DoDispose; its children relate it to a list
--   Sfama/State         the fields of AquaSimSFama, its packets, and what it asks of ns-3
--   Sfama/Packets       MakeRTS, MakeCTS, MakeACK, FillDATA
--   Sfama/Train         PrepareSendingDATA, ScheduleRTS, ReleaseSentPkts
--   Sfama               the other handlers of AquaSimSFama
--   Sfama/Step          the events, a relation on states; Diagram, Conserve, Deliver and Stuck are
--                       about their sequences, Handshake is about two nodes
--   Aloha/State, Aloha  the fields and the handlers of AquaSimAloha; Aloha/Run is about the sequences of
--                       its events, Aloha/GiveUp about the end of its backoffs,
--                       Aloha/LateAck about a node that receives while it waits
--   Ndn/Store           CSFifo and CSLru; their children relate them to plain lists of entries
--   Ndn/Pit, Ndn/Fib    the classes Pit and Fib; Pit/Requesters and Fib/Hops are about their answers
--   Ndn/Payload         CreateData's bytes, GetInterestAndDataStr, ShortenNamePrefix
--   Ndn/NamedData       NamedData: Recv, RecvCheck, SendMultiplePackets, the packets it makes
--   Wire                Buffer::Iterator, for the headers' Serialize and Deserialize
--   Libra               MacLibraHeader: GetSerializedSize, Serialize, Deserialize
--   Jmac                JammingMacHeader: SetSchedule, SetNodeBit, GetNodeBit, GetNodesAmount,
--                       GetSerializedSize, Serialize, Deserialize
--   Tests               inputs, and the theorems at them
-- The files below these hold the proofs.
--
-- The correspondence. A C++ function is the function of its name in snake_case, or a function that says
-- which it is above it. The object is a record, `Node`, `RoutingBuffer`, `Sfama` or `Aloha`, which a
-- method takes and returns, with the method's result beside it. Calls out of the object are values of
-- an effect type in the field `out`, the newest first: a packet handed down, a packet handed up, a call
-- or a timer scheduled. A scheduled call is then one more call of the function that it names. An
-- address is its integer, `m_routeTable` and its like are lists in the order of the keys, a method's
-- `Simulator::Now()` is the environment's `now`. The fields `released` and `dropped` of the MACs record
-- packets that the code forgets. The packets that NamedData hands down are in its field `sent`, the
-- oldest first.
--
-- Bounds. Unsigned fields wrap where the source's types do: sequence numbers, request ids and
-- counters at 2 ^ 32, hop counts and sizes at 2 ^ 16. A time is a number of nanoseconds, not
-- negative and not wrapping, as are the durations among the attributes. The loops of the routing
-- buffer run on fuel, one more than the number of packets, which the refinement shows to be enough.
-- SendDataPkt of ALOHA, which its callees call again, has a fuel of 1, which is shown to be enough;
-- Clean of the least-recently-used store has one more than the names of its map, which the refinement
-- shows to be enough; that of GetNodesAmount has 64, one for each bit, which are shown to be enough;
-- every other loop of the source is a recursion on a list. Slotted FAMA reckons in doubles; here its
-- times are whole nanoseconds, its slots have a given length, and what GetTime2ComingSlot gives, 0
-- included, is an input of each event. A timer that runs may expire at any time, and a scheduled call
-- may come at any time. A timer that is scheduled while it runs, which ns-3 refuses, is scheduled anew.
--
-- Not modelled. ns-3 itself: Buffer::Iterator is the interface `Buffer`, with its documented laws;
-- the random variable, the ids of packets and the product of a time in seconds with a number, as
-- doubles, are functions of `Env`. A packet that is tagged PT_UW_AODV is taken to carry the AODV
-- header under the Aqua-Sim header, and any other not to carry one. Logging, the type system of
-- ns-3 and AssignStreams are left out. A frame of slotted FAMA or ALOHA has the fields that the
-- protocol reads and writes, and not the bytes of its headers. In model/ndn, a pointer is a number and
-- the addresses that `new` gives are inputs; CSRandom, which steps an iterator past the end of a hash
-- table's bucket, the setters and the MAC header of a packet are left out; a cost is not negative; the
-- hash table of CSLru, whose order nothing reads, is a sorted map; RemoveEntry also stands for the
-- expiry of a PIT entry's timer. The other protocols, the channel and the physical layer are not
-- modelled. The headers of LIBRA and JMAC hold integers; the doubles that their setters scale are
-- left out.
pub mod Prelude
pub mod Address
pub mod Aloha
pub mod Packet
pub mod Wire
pub mod Aodv
pub mod Queues
pub mod Sfama
pub mod Ndn
pub mod Libra
pub mod Jmac
mod Tests
