-- ===== src/Codec.antt =====
-- pkg/protocol/codec.go: the stream wire format. A message is the list of its bytes; each encoder
-- is the concatenation of the fields that it writes, in the order of its writes, and each decoder
-- reads at the offsets that the source computes.
pub mod Fields
pub mod Reads
pub mod ClientHello
pub mod ServerHello
pub mod Records
mod Tests
