-- ===== src/ThreadPool/Tests.antt =====
-- A pool in the cached mode, with one thread at first.
use fishjoy.Base.{◌≡◌, refl, true, false, List, [], ◌∷◌, err, null_pointer}
use fishjoy.ThreadPool.{new_pool, start, Act, submit, turn, halt, acts}
use fishjoy.ThreadPool.Bounds.{Counts, start-Counts, pool-Counts}

-- The second thread leaves as its wait runs out, with a task in the queue.
abbrev history : List Act
history =
    submit 7
    ∷ submit 8
    ∷ submit 9
    ∷ turn 0 false
    ∷ turn 1 false
    ∷ turn 0 false
    ∷ turn 0 false
    ∷ turn 1 false
    ∷ turn 1 false
    ∷ submit 10
    ∷ turn 1 true
    ∷ halt
    ∷ turn 0 false
    ∷ []

pool-Counts_example : Counts (acts (start-Counts true 4 100 1).0 history)
pool-Counts_example =
    pool-Counts (start-Counts true 4 100 1).0 history (start-Counts true 4 100 1).2

-- A second pool gets its ids behind those of the first, and looks for the threads from 0 on.
second_pool : start (new_pool 1) 1 ≡ err null_pointer
unfolding start
second_pool = refl
