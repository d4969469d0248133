-- ===== src/Util/RingBuffer.antt =====
-- internal/utils/ringbuffer/ringbuffer.go. The zero value of the type is a parameter.
pub mod Arrays
pub mod Refine
pub mod Queue
pub mod Tests
use x_fec.Base.{
  ℕ, ◌+◌, ◌-◌, ◌*◌, List, [], ◌∷◌, ◌++◌, Bool, true, false, leb, ◌==◌, ◌&&◌, ◌||◌, not,
  if◌then◌else◌, Option, none, some, length, take, drop, set, get_or, replicate,
}

pub record RingBuffer {ℓ} (A : Type ℓ) : Type ℓ where
  pub ring : List A
  pub head_pos : ℕ
  pub tail_pos : ℕ
  pub full : Bool

module _ {ℓ} {A : Type ℓ} (zero_value : A) where
  unfoldable pub init : ℕ → RingBuffer A
  init size = record { ring = replicate size zero_value; head_pos = 0; tail_pos = 0; full = false }

  -- With a tail in front of the head the size is added.
  unfoldable pub len : RingBuffer A → ℕ
  len r =
      if r.full
      then length r.ring
      else if leb r.head_pos r.tail_pos
      then r.tail_pos - r.head_pos
      else r.tail_pos + length r.ring - r.head_pos

  unfoldable pub is_empty : RingBuffer A → Bool
  is_empty r = not r.full && r.head_pos == r.tail_pos

  -- The second `copy` writes behind the first.
  unfoldable pub grow : RingBuffer A → RingBuffer A
  grow r =
      let n = length r.ring in
      let new_size = if n == 0 then 1 else n * 2 in
      record {
        ring =
            drop r.head_pos r.ring
            ++ (take r.head_pos r.ring ++ replicate (new_size - n) zero_value);
        head_pos = 0;
        tail_pos = n;
        full = false;
      }

  -- `PushBack` once there is room.
  unfoldable pub push_in : RingBuffer A → A → RingBuffer A
  push_in r t =
      let next = if r.tail_pos + 1 == length r.ring then 0 else r.tail_pos + 1 in
      record {
        ring = set r.ring r.tail_pos t;
        head_pos = r.head_pos;
        tail_pos = next;
        full = if next == r.head_pos then true else r.full;
      }

  unfoldable pub push_back : RingBuffer A → A → RingBuffer A
  unfolding push_in grow
  push_back r t = push_in (if r.full || length r.ring == 0 then grow r else r) t

  -- `none` is the panic for an empty buffer.
  unfoldable pub pop_front : RingBuffer A → Option (A × RingBuffer A)
  unfolding is_empty
  pop_front r =
      if is_empty r
      then none
      else some (
        get_or r.ring r.head_pos zero_value,
        record {
          ring = set r.ring r.head_pos zero_value;
          head_pos = if r.head_pos + 1 == length r.ring then 0 else r.head_pos + 1;
          tail_pos = r.tail_pos;
          full = false;
        },
      )

  unfoldable pub peek_front : RingBuffer A → Option A
  unfolding is_empty
  peek_front r = if is_empty r then none else some (get_or r.ring r.head_pos zero_value)

  unfoldable pub clear : RingBuffer A → RingBuffer A
  clear r = record {
    ring = replicate (length r.ring) zero_value;
    head_pos = 0;
    tail_pos = 0;
    full = false;
  }
