-- ===== src/Util/RingBuffer/Tests.antt =====
-- internal/utils/ringbuffer/ringbuffer.go: runs at concrete inputs.
use x_fec.Base.{ℕ, ◌≡◌, refl, List, [], ◌∷◌}
use x_fec.Util.RingBuffer.{init}
use x_fec.Util.RingBuffer.Queue.{
  Op, push, pop, peek, count, clear_all, Answer, done, panics, front, counted, buffer_answers,
  queue_answers, buffer_answers-queue,
}

abbrev ops : List (Op ℕ)
ops =
    push 3
    ∷ push 5
    ∷ push 8
    ∷ pop
    ∷ push 9
    ∷ push 4
    ∷ push 7
    ∷ count
    ∷ pop
    ∷ peek
    ∷ clear_all
    ∷ peek
    ∷ []

abbrev answers : List (Answer ℕ)
answers =
    done
    ∷ done
    ∷ done
    ∷ front 3
    ∷ done
    ∷ done
    ∷ done
    ∷ counted 5
    ∷ front 5
    ∷ front 8
    ∷ done
    ∷ panics
    ∷ []

queue_answers_run : queue_answers [] ops ≡ answers
unfolding queue_answers x_fec.Util.RingBuffer.Queue.queue_op
queue_answers_run = refl

buffer_answers-queue_example : buffer_answers 0 (init 0 2) ops ≡ queue_answers [] ops
buffer_answers-queue_example = buffer_answers-queue 0 2 ops
