-- ===== src/Protobuf/Lite/Tests.antt =====
-- Runs of the lite codec with the tag of the RPC codec.
use serverlite.Base.{◌≡◌, refl, arith, [], ◌∷◌, ◌++◌, Bytes, codes, bytes_eq, none}
use serverlite.Base.Words.{be32, read_be32}
use serverlite.Framing.{wait, decode}
use serverlite.Protobuf.Toy.{toy}
use serverlite.Protobuf.Lite.{Config, message, rpctag, fill_empty_buffer, parse, turn, on_message}
use serverlite.Protobuf.Lite.RoundTrip.{on_message_tagged_frame}

abbrev rpc : Config toy
rpc = record { prototype = codes "RpcMessage"; tag = rpctag; raw = none }

abbrev request : toy.Message
request = (codes "RpcMessage", 8 ∷ 1 ∷ 16 ∷ 5 ∷ 26 ∷ 0 ∷ [])

on_message_tagged_frame_example :
    on_message toy rpc (fill_empty_buffer toy rpctag request ++ 0 ∷ [])
    ≡ (message request ∷ (on_message toy rpc (0 ∷ [])).0, (on_message toy rpc (0 ∷ [])).1)
unfolding be32 bytes_eq
on_message_tagged_frame_example =
    on_message_tagged_frame toy rpc request (0 ∷ []) refl (omega arith) refl refl

abbrev first_read : Bytes
first_read = 0 ∷ 0 ∷ 0 ∷ 14 ∷ 82 ∷ 80 ∷ []

first_read_waits : turn toy rpc (on_message toy rpc first_read).1 ≡ wait
unfolding on_message turn decode parse read_be32
first_read_waits = refl
