-- ===== src/Protobuf.antt =====
-- src/slite/protobuf: the two codecs over libprotobuf.
pub mod Runtime
pub mod Toy
pub mod Codec
pub mod Dispatcher
pub mod Lite
