-- ===== src/MessageQueue.antt =====
-- src/examples/mq/MessageQueue.cc: push and pop. std::queue takes at its back and gives from its
-- front; none stands for a read of a string that is not there, or is there no more.
use serverlite.Base.{◌≡◌, refl, Option, some, none, List, [], ◌∷◌, ◌++◌, Bytes, codes, ap}

unfoldable pub back : Bytes → List Bytes → Bytes
back m [] = m
back m (n ∷ queue) = back n queue

pub push : Bytes → List Bytes → List Bytes
push text queue = queue ++ text ∷ []

-- pop: `data` refers to the back, and is read after the front has gone. std::move moves nothing
-- here, and the text returned is a copy.
pub pop : List Bytes → Option (Bytes × List Bytes)
unfolding back
pop [] = none
pop (m ∷ []) = none
pop (m ∷ n ∷ queue) = some (back n queue, n ∷ queue)

back-push : (m text : Bytes) (queue : List Bytes) → back m (push text queue) ≡ text
unfolding back push
back-push m text [] = refl
back-push m text (n ∷ queue) = back-push n text queue

-- After a push onto a queue that is not empty, pop hands out the text just pushed, which stays in
-- the queue, and the oldest one is dropped.
pop-push :
    (m text : Bytes) (queue : List Bytes)
    → pop (push text (m ∷ queue)) ≡ some (text, push text queue)
unfolding pop push back
pop-push m text [] = refl
pop-push m text (n ∷ queue) = ap (λ d. some (d, push text (n ∷ queue))) (back-push n text queue)

-- The program as it stands: a push, and a pop that reads a string that is gone.
pop_hello : pop (push (codes "hello") []) ≡ none
unfolding pop push
pop_hello = refl
