-- ===== src/Lib.antt =====
-- The peer-to-peer VPN r2n: rooms of nodes, whose packets a data plane encrypts and sends to peers
-- directly, through a relay, or as a flood.
--
-- The parts, each with the file of the repository that it stands for:
--   Proto      crates/r2n-proto/src/lib.rs: the header of data frames (encode_into, decode).
--   Crypto     crates/r2n-crypto/src/lib.rs: Cipher and its replay window.
--   Slab       crates/r2n-slab/src/lib.rs: the pool of packet buffers.
--   Qos        crates/r2n-qos/src/lib.rs: classification and the four queues.
--   Policy     crates/r2n-policy/src/lib.rs: the traffic rules.
--   Room       crates/r2n-room/src/lib.rs: members and their addresses; Room.Subnets is
--              RoomAddressPool, the subnets of rooms.
--   Dataplane  crates/r2n-dataplane/src: Flood is SeenFloodPackets, Path is path.rs, Frames reads
--              frames, Table has the peers, the table of MAC addresses and select_targets, Incoming
--              is validate_incoming_header, Defense is defense.rs, Sealing builds a frame in its
--              slot, and Node puts the parts together: send_to_peer, with Node.Handling for
--              handle_incoming_frame, Node.Outgoing for a round of run_tun_loop, Node.Probing for a
--              tick of run_ping_loop, and Node.Delivery for what the loop of
--              crates/r2n-edge-lib/src/lib.rs does with a data frame.
--   Observability  crates/r2n-observability/src/lib.rs: the counters and the pings of MetricsRegistry.
--   Transport  crates/r2n-transport/src/lib.rs: recv_packet.
--   Discovery  crates/r2n-discovery/src/lib.rs: the classification of packets.
--   Rendezvous  crates/r2n-rendezvous/src/lib.rs: the pairs of candidates and the choice of a path.
--   Invites    crates/r2n-common/src/lib.rs: InviteData, its signature and its text.
--   Nat        crates/r2n-nat/src: inference from STUN answers, port prediction, candidates.
--   Supernode  crates/r2n-supernode-lib/src/lib.rs: the tables and every arm of handle_control, with
--              the control frames of r2n-proto; a failed send ends a handler where the code returns;
--              Supernode.Relay is the part of run that relays data frames.
-- Common has lists, maps, bytes and a stable sort that the parts share.
--
-- The data plane calls the others: a received datagram passes Transport, which calls Proto.decode,
-- Incoming, which asks Flood, then Crypto and Policy; a packet from the tunnel passes Defense,
-- Discovery, Policy and Table, and is sealed in a Slab buffer that Qos queues. A state is a record
-- and an operation a function from it to the next state, with the results beside it; an error is a
-- value of Result or none, and where the code can panic the function says so (Crypto.Outcome,
-- Path.active_addr, Node.Ending, Defense.Clamping).
--
-- Numbers: integers are natural numbers, and the shifts and masks of u64 are written out with their
-- wrap-around. Ids and addresses are the numbers that their bytes spell. A clock is an argument, in
-- nanoseconds. A hash map is a list of pairs with one order of iteration; no theorem names an order.
-- Loops are recursions on the list they run over; the search for a free host in Room.find_host runs
-- on fuel, the distance from the first candidate to the broadcast address, which is as many steps as
-- the code can make before it stops, the loop over TCP options in Defense on as many rounds as the
-- header is said to have bytes, each of which the loop passes once, and the folding of a checksum on
-- four, after which a 32-bit sum has no carry.
--
-- Parameters: the AEAD cipher (chacha20poly1305), the array queue (crossbeam), the parser of packets
-- (etherparse), the networks (ipnet), the decoder of control frames and the codecs of invites
-- (postcard, base64, ed25519), the socket and the tunnel, as whether they take a packet, and the
-- 32-bit floats. Their laws are fields of the records that the definitions take, or hypotheses.
--
-- Not modelled: sockets, devices, operating system commands, the Noise handshake, files and the
-- command line; the edge node but for that arm; and locks, since every operation
-- here is one step, but for the one that LeaveRoom takes twice.
pub mod Common
pub mod Proto
pub mod Crypto
pub mod Qos
pub mod Slab
pub mod Dataplane
pub mod Room
pub mod Policy
pub mod Observability
pub mod Supernode
pub mod Transport
pub mod Discovery
pub mod Rendezvous
pub mod Nat
pub mod Invites
