-- ===== src/Queue/Fifo.antt =====
-- What queue.c promises: a first-in first-out queue of at most `capacity` pointers, oldest first,
-- and what a client sees of a sequence of calls.
use university_coursework.Base.{
  ℕ, List, [], ◌∷◌, ◌++◌, Option, some, length, ◌==◌, if◌then◌else◌, ◌>>=◌,
}
use university_coursework.Queue.{
  Pointer, null, Status, ok, failed, Queue, queue_enqueue, queue_dequeue,
}

unfoldable pub put : ℕ → List Pointer → Pointer → Status × List Pointer
put capacity xs x = if length xs == capacity then (failed, xs) else (ok, xs ++ (x ∷ []))

unfoldable pub take_first : List Pointer → Pointer × List Pointer
take_first [] = (null, [])
take_first (x ∷ xs) = (x, xs)

pub data Call : Type 0 where
  enqueue : Pointer → Call
  dequeue : Call

pub data Reply : Type 0 where
  status : Status → Reply
  item : Pointer → Reply

-- The replies of the abstract queue.
unfoldable pub promised : ℕ → List Pointer → List Call → List Reply
promised capacity xs [] = []
promised capacity xs (enqueue x ∷ calls) =
    let (s, xs') = put capacity xs x in status s ∷ promised capacity xs' calls
promised capacity xs (dequeue ∷ calls) =
    let (x, xs') = take_first xs in item x ∷ promised capacity xs' calls

-- The replies of the C code, or `none` where one of the calls is undefined.
unfoldable pub run : Queue → List Call → Option (List Reply)
run q [] = some []
run q (enqueue x ∷ calls) = do
  (s, q') ← queue_enqueue q x
  rest ← run q' calls
  some (status s ∷ rest)
run q (dequeue ∷ calls) = do (x, q') ← queue_dequeue q; rest ← run q' calls; some (item x ∷ rest)
