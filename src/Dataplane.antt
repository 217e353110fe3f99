-- ===== src/Dataplane.antt =====
-- crates/r2n-dataplane/src: the data plane. `Flood` is the duplicate check of flooded packets,
-- `Path` the choice among the addresses of a peer, `Frames` reads frames, `Table` is the state with
-- its peers and its table of MAC addresses, `Incoming` the check of a received header.
pub mod Flood
pub mod Path
pub mod Frames
pub mod Table
pub mod Incoming
pub mod Defense
pub mod Sealing
pub mod Node
