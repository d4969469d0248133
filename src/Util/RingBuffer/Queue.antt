-- ===== src/Util/RingBuffer/Queue.antt =====
-- internal/utils/ringbuffer/ringbuffer.go: rows of operations, beside a list that is used as a queue.
use x_fec.Base.{
  ℕ, ◌≡◌, refl, sym, ap, ◌∙◌, List, [], ◌∷◌, ◌++◌, Option, none, some, arith, inl, inr, length,
  Bool-cases, length-replicate,
}
use x_fec.Util.RingBuffer.{RingBuffer, init, len, is_empty, push_back, pop_front, peek_front, clear}
use x_fec.Util.RingBuffer.Refine.{
  contents, IsValid, length-contents, push_back-IsValid, push_back-contents, pop_front-contents,
  AfterPop, emptied, popped-contents,
}

pub data Op {ℓ} (A : Type ℓ) : Type ℓ where
  push : A → Op A
  pop peek count clear_all : Op A

-- What an operation answers. A pop and a peek of an empty queue panic.
pub data Answer {ℓ} (A : Type ℓ) : Type ℓ where
  done panics : Answer A
  front : A → Answer A
  counted : ℕ → Answer A

abbrev after_pop {ℓ} : {S A : Type ℓ} → S → Option (A × S) → Answer A × S
after_pop r none = (panics, r)
after_pop r (some (x, r')) = (front x, r')

abbrev seen {ℓ} : {A : Type ℓ} → Option A → Answer A
seen none = panics
seen (some x) = front x

-- The queue as a list.
abbrev uncons {ℓ} : {A : Type ℓ} → List A → Option (A × List A)
uncons [] = none
uncons (x ∷ xs) = some (x, xs)

abbrev head {ℓ} : {A : Type ℓ} → List A → Option A
head [] = none
head (x ∷ xs) = some x

unfoldable pub queue_op {ℓ} : {A : Type ℓ} → List A → Op A → Answer A × List A
queue_op l (push x) = (done, l ++ x ∷ [])
queue_op l pop = after_pop l (uncons l)
queue_op l peek = (seen (head l), l)
queue_op l count = (counted (length l), l)
queue_op l clear_all = (done, [])

unfoldable pub queue_answers {ℓ} : {A : Type ℓ} → List A → List (Op A) → List (Answer A)
queue_answers l [] = []
queue_answers l (o ∷ os) = (queue_op l o).0 ∷ queue_answers (queue_op l o).1 os

module _ {ℓ} {A : Type ℓ} (z : A) where
  unfoldable pub buffer_op : RingBuffer A → Op A → Answer A × RingBuffer A
  buffer_op r (push x) = (done, push_back z r x)
  buffer_op r pop = after_pop r (pop_front z r)
  buffer_op r peek = (seen (peek_front z r), r)
  buffer_op r count = (counted (len z r), r)
  buffer_op r clear_all = (done, clear z r)

  unfoldable pub buffer_answers : RingBuffer A → List (Op A) → List (Answer A)
  buffer_answers r [] = []
  buffer_answers r (o ∷ os) = (buffer_op r o).0 ∷ buffer_answers (buffer_op r o).1 os

  -- One operation on the buffer and on its contents.
  Agrees : (r : RingBuffer A) (l : List A) → Answer A × RingBuffer A → Answer A × List A → Type ℓ
  Agrees r l a q = (a.0 ≡ q.0) × IsValid a.1 × (contents a.1 ≡ q.1)

  init-IsValid : (n : ℕ) → IsValid (init z n) × (contents (init z n) ≡ [])
  unfolding init contents
  init-IsValid n = (ground (arith, length-replicate n z), refl)

  clear-IsValid : (r : RingBuffer A) → IsValid (clear z r) × (contents (clear z r) ≡ [])
  unfolding clear contents
  clear-IsValid r = (ground (arith, length-replicate (length r.ring) z), refl)

  pop-Agrees :
      (r : RingBuffer A)
      → IsValid r
      → (o : Option (A × RingBuffer A)) → AfterPop z r o
      → Agrees r (contents r) (after_pop r o) (after_pop (contents r) (uncons (contents r)))
  unfolding Agrees
  pop-Agrees r v none h = rw h (refl, v, refl)
  pop-Agrees r v (some (x, r')) h = rw (h.1) (refl, h.0, refl)

  peek_same : (r : RingBuffer A) → IsValid r → peek_front z r ≡ head (contents r)
  unfolding peek_front
  peek_same r v = elim (Bool-cases (is_empty z r)) [
    | inl e ↦ rw (e, emptied z r v e) refl
    | inr e ↦ rw (e, popped-contents z r v e) refl
  ]

  op-Agrees :
      (r : RingBuffer A) (o : Op A)
      → IsValid r
      → Agrees r (contents r) (buffer_op r o) (queue_op (contents r) o)
  unfolding Agrees buffer_op queue_op
  op-Agrees r (push x) v = (refl, push_back-IsValid z r x v, push_back-contents z r x v)
  op-Agrees r pop v = pop-Agrees r v (pop_front z r) (pop_front-contents z r v)
  op-Agrees r peek v = (ap seen (peek_same r v), v, refl)
  op-Agrees r count v = (ap counted (sym (length-contents z r v)), v, refl)
  op-Agrees r clear_all v = (refl, (clear-IsValid r).0, (clear-IsValid r).1)

  answers_agree :
      (r : RingBuffer A) (os : List (Op A))
      → IsValid r
      → buffer_answers r os ≡ queue_answers (contents r) os
  unfolding buffer_answers queue_answers Agrees
  answers_agree r [] v = refl
  answers_agree r (o ∷ os) v =
      let g = op-Agrees r o v in
      rw (sym (g.2)) (
        rw (sym (g.0)) (ap (λ l. (buffer_op r o).0 ∷ l) (answers_agree (buffer_op r o).1 os (g.1))))

  -- A buffer of any initial size answers every row of operations as a queue does that starts empty: what
  -- a pop and a peek give is the oldest element, they panic exactly when there is none, and `Len` is the
  -- number of the elements. The array that grows and the positions that wrap are not seen.
  pub buffer_answers-queue :
      (n : ℕ) (os : List (Op A)) → buffer_answers (init z n) os ≡ queue_answers [] os
  buffer_answers-queue n os =
      let i = init-IsValid n in
      answers_agree (init z n) os (i.0) ∙ ap (λ l. queue_answers l os) (i.1)
