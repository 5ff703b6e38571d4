-- ===== src/Protobuf/Codec/Tests.antt =====
-- Runs of the codec on a small runtime.
use serverlite.Base.{◌≡◌, refl, arith, [], ◌∷◌, ◌++◌, map, concat, Bytes, codes}
use serverlite.Framing.{wait, decode}
use serverlite.Base.Words.{be32, read_be32}
use serverlite.Protobuf.Toy.{toy}
use serverlite.Protobuf.Codec.{
  message, error, check_sum_error, fill_empty_buffer, frame_body, parse, turn, on_message,
}
use serverlite.Protobuf.Codec.RoundTrip.{
  IsSendable, on_message-fill_empty_buffer, on_message-append,
}

abbrev pub query : toy.Message
query = (codes "Q", 7 ∷ 8 ∷ [])

abbrev pub answer : toy.Message
answer = (codes "A", [])

-- A frame as it stands on the wire.
answer_frame :
    fill_empty_buffer toy answer ≡ 0 ∷ 0 ∷ 0 ∷ 10 ∷ 0 ∷ 0 ∷ 0 ∷ 2 ∷ 65 ∷ 0 ∷ 0 ∷ 142 ∷ 0 ∷ 68 ∷ []
unfolding fill_empty_buffer be32
answer_frame = refl

-- A bit of the payload changed: the checksum is found wrong, and the frame stays.
changed_frame : on_message toy (0 ∷ 0 ∷ 0 ∷ 10 ∷ 0 ∷ 0 ∷ 0 ∷ 2 ∷ 66 ∷ 0 ∷ 0 ∷ 142 ∷ 0 ∷ 68 ∷ []) ≡ (
  error check_sum_error (0 ∷ 0 ∷ 0 ∷ 10 ∷ 0 ∷ 0 ∷ 0 ∷ 2 ∷ 66 ∷ 0 ∷ 0 ∷ 142 ∷ 0 ∷ 68 ∷ []) ∷ [],
  0 ∷ 0 ∷ 0 ∷ 10 ∷ 0 ∷ 0 ∷ 0 ∷ 2 ∷ 66 ∷ 0 ∷ 0 ∷ 142 ∷ 0 ∷ 68 ∷ [],
)
unfolding on_message turn decode parse read_be32
changed_frame = refl

pub query-IsSendable : IsSendable toy query
unfolding frame_body be32
query-IsSendable = record {
  serves = record { prototype = codes "Q"; found = refl; parses = refl };
  named = λ e. cc;
  fits = omega arith;
}

pub answer-IsSendable : IsSendable toy answer
unfolding frame_body be32
answer-IsSendable = record {
  serves = record { prototype = codes "A"; found = refl; parses = refl };
  named = λ e. cc;
  fits = omega arith;
}

on_message-fill_empty_buffer_example :
    on_message toy (concat (map (fill_empty_buffer toy) (query ∷ answer ∷ [])) ++ 0 ∷ 0 ∷ []) ≡ (
      map message (query ∷ answer ∷ []) ++ (on_message toy (0 ∷ 0 ∷ [])).0,
      (on_message toy (0 ∷ 0 ∷ [])).1,
    )
on_message-fill_empty_buffer_example =
    on_message-fill_empty_buffer toy (query ∷ answer ∷ []) (0 ∷ 0 ∷ [])
      (query-IsSendable, (answer-IsSendable, tt))

-- One read that ends inside the second frame, and the read with the rest of it.
abbrev first_read : Bytes
first_read = 0 ∷ 0 ∷ 0 ∷ 10 ∷ 0 ∷ 0 ∷ 0 ∷ 2 ∷ 65 ∷ 0 ∷ 0 ∷ 142 ∷ 0 ∷ 68 ∷ 0 ∷ 0 ∷ 0 ∷ 10 ∷ 0 ∷ []

abbrev second_read : Bytes
second_read = 0 ∷ 0 ∷ 2 ∷ 65 ∷ 0 ∷ 0 ∷ 142 ∷ 0 ∷ 68 ∷ []

first_read_waits : turn toy (on_message toy first_read).1 ≡ wait
unfolding on_message turn decode parse read_be32
first_read_waits = refl

on_message-append_example : on_message toy (first_read ++ second_read) ≡ (
  (on_message toy first_read).0
      ++ (on_message toy ((on_message toy first_read).1 ++ second_read)).0,
  (on_message toy ((on_message toy first_read).1 ++ second_read)).1,
)
on_message-append_example = on_message-append toy first_read second_read first_read_waits
