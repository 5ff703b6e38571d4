-- ===== src/Framing.antt =====
-- The loop that the decoders of the program run over a receive buffer: look at the front of the
-- buffer, then wait for more bytes, fail, or take a message off the front and go round again.
-- onMessage of src/slite/protobuf/ProtobufCodec.cc and of ProtobufCodecLite.cc are instances.
mod Defs
mod Laws
mod Reads
unfoldable pub use Defs.*
pub use Laws.*
unfoldable pub use Reads.*
