-- ===== src/Wire/Ack.antt =====
-- internal/wire/ack_frame.go and ack_range.go. A packet number is a natural number, a delay a number of
-- nanoseconds; the differences of packet numbers are converted to `uint64`.
pub mod Ranges
pub mod RoundTrip
pub mod Size
pub mod Acked
pub mod Tests
use x_fec.Base.{
  ℕ, zero, suc, ◌+◌, ◌-◌, ◌*◌, ◌/◌, ◌%◌, ◌^◌, List, [], ◌∷◌, ◌++◌, Bool, true, false, ltb, leb,
  ◌==◌, ◌&&◌, ◌||◌, not, if◌then◌else◌, Result, ok, err, ◌>>=◌, length, take,
}
use x_fec.Varint.{u64}
use x_fec.Wire.{
  Error, invalid_first_ack_range, invalid_ack_ranges, out_of_range, Parsed, read_varint,
  append_varint, len_varint,
}

-- internal/protocol/params.go
abbrev pub max_ack_frame_size : ℕ
max_ack_frame_size = 1000

abbrev pub ack_delay_exponent : ℕ
ack_delay_exponent = 3

-- math.MaxInt64
abbrev pub inf_duration : ℕ
inf_duration = 9223372036854775807

pub record AckRange : Type 0 where
  pub smallest : ℕ
  pub largest : ℕ

unfoldable pub ack_range_len : AckRange → ℕ
ack_range_len r = r.largest - r.smallest + 1

pub record AckFrame : Type 0 where
  pub ack_ranges : List AckRange
  pub delay_time : ℕ
  pub ect0 : ℕ
  pub ect1 : ℕ
  pub ecnce : ℕ

-- `uint64(a - b)`
unfoldable pub difference : ℕ → ℕ → ℕ
difference a b = u64 (a + 2 ^ 64 - b)

-- The product is a `uint64` first and then an `int64`, which is negative from 2^63 on.
unfoldable pub decode_ack_delay : ℕ → ℕ → ℕ
decode_ack_delay delay exponent =
    let t = u64 (u64 (delay * 2 ^ exponent) * 1000) in if leb (2 ^ 63) t then inf_duration else t

unfoldable pub validate_each : List AckRange → Bool
validate_each [] = true
validate_each (r ∷ rs) = leb r.smallest r.largest && validate_each rs

-- The ranges behind one that begins at `last`.
unfoldable pub validate_behind : ℕ → List AckRange → Bool
validate_behind last [] = true
validate_behind last (r ∷ rs) =
    not (leb last r.smallest) && (not (leb last (r.largest + 1)) && validate_behind r.smallest rs)

unfoldable pub validate_ack_ranges : List AckRange → Bool
unfolding validate_each validate_behind
validate_ack_ranges [] = false
validate_ack_ranges (r ∷ rs) = validate_each (r ∷ rs) && validate_behind r.smallest rs

-- The ranges behind one that begins at `smallest`.
pub parse_ranges : ℕ → ℕ → List ℕ → Parsed (List AckRange)
parse_ranges zero smallest r = ok ([], r)
parse_ranges (suc n) smallest r = do
  (gap, r) ← read_varint r
  if ltb smallest (gap + 2) then err invalid_ack_ranges else do
    let largest = smallest - gap - 2
    (block, r) ← read_varint r
    if ltb largest block then err invalid_ack_ranges else do
      (rest, r) ← parse_ranges n (largest - block) r
      ok (record { smallest = largest - block; largest = largest } ∷ rest, r)

abbrev pub set_counts : AckFrame → ℕ → ℕ → ℕ → AckFrame
set_counts f a b c = record f { ect0 = a; ect1 = b; ecnce = c }

pub parse_counts : Bool → AckFrame → List ℕ → Parsed AckFrame
parse_counts false f r = ok (f, r)
parse_counts true f r = do
  (a, r) ← read_varint r
  (b, r) ← read_varint r
  (c, r) ← read_varint r
  ok (set_counts f a b c, r)

-- The frame that is filled has been reset. The type 3 says that there are ECN counts.
pub parse_ack_frame : AckFrame → List ℕ → ℕ → ℕ → Parsed AckFrame
unfolding parse_counts
parse_ack_frame frame r typ exponent = do
  (largest, r) ← read_varint r
  (delay, r) ← read_varint r
  (blocks, r) ← read_varint r
  (block, r) ← read_varint r
  if ltb largest block then err invalid_first_ack_range else do
    let first : AckRange = record { smallest = largest - block; largest = largest }
    (rest, r) ← parse_ranges blocks (largest - block) r
    let ranges = frame.ack_ranges ++ first ∷ rest
    if not (validate_ack_ranges ranges)
        then err invalid_ack_ranges
        else parse_counts (typ == 0x3)
            (record frame { ack_ranges = ranges; delay_time = decode_ack_delay delay exponent }) r

-- An index into no ranges panics.
abbrev pub front : List AckRange → Result Error AckRange
front [] = err out_of_range
front (r ∷ rs) = ok r

abbrev pub behind : List AckRange → List AckRange
behind [] = []
behind (r ∷ rs) = rs

abbrev pub last_of : AckRange → List AckRange → AckRange
last_of r [] = r
last_of r (s ∷ rs) = last_of s rs

abbrev pub largest_acked : AckFrame → Result Error ℕ
largest_acked f = do r ← front f.ack_ranges; ok r.largest

unfoldable pub encode_ack_delay : ℕ → ℕ
encode_ack_delay delay = delay / (1000 * 2 ^ ack_delay_exponent)

unfoldable pub encode_gap : ℕ → AckRange → ℕ
unfolding difference
encode_gap smallest r = difference smallest (r.largest + 2)

unfoldable pub encode_length : AckRange → ℕ
unfolding difference
encode_length r = difference r.largest r.smallest

-- From the range with index `i` on, which comes behind one that begins at `smallest`.
pub count_encodable : ℕ → ℕ → ℕ → List AckRange → Result Error ℕ
unfolding encode_gap encode_length
count_encodable size i smallest [] = ok i
count_encodable size i smallest (r ∷ rs) = do
  g ← len_varint (encode_gap smallest r)
  l ← len_varint (encode_length r)
  if ltb max_ack_frame_size (size + (g + l))
      then ok (i - 1)
      else count_encodable (size + (g + l)) (i + 1) r.smallest rs

pub num_encodable_ack_ranges : AckFrame → Result Error ℕ
unfolding encode_ack_delay
num_encodable_ack_ranges f = do
  first ← front f.ack_ranges
  a ← len_varint first.largest
  d ← len_varint (encode_ack_delay f.delay_time)
  count_encodable (1 + a + d + 2) 1 first.smallest (behind f.ack_ranges)

unfoldable pub has_ecn : AckFrame → Bool
has_ecn f = ltb 0 f.ect0 || ltb 0 f.ect1 || ltb 0 f.ecnce

pub append_ranges : List ℕ → ℕ → List AckRange → Result Error (List ℕ)
unfolding encode_gap encode_length
append_ranges b smallest [] = ok b
append_ranges b smallest (r ∷ rs) = do
  b ← append_varint b (encode_gap smallest r)
  b ← append_varint b (encode_length r)
  append_ranges b r.smallest rs

pub append_counts : Bool → List ℕ → AckFrame → Result Error (List ℕ)
append_counts false b f = ok b
append_counts true b f = do
  b ← append_varint b f.ect0
  b ← append_varint b f.ect1
  append_varint b f.ecnce

pub append_ack_frame : List ℕ → AckFrame → Result Error (List ℕ)
unfolding encode_ack_delay encode_length has_ecn append_counts difference
append_ack_frame b f = do
  first ← front f.ack_ranges
  b ← append_varint (b ++ (if has_ecn f then 0x3 else 0x2) ∷ []) first.largest
  b ← append_varint b (encode_ack_delay f.delay_time)
  n ← num_encodable_ack_ranges f
  b ← append_varint b (difference n 1)
  b ← append_varint b (encode_length first)
  b ← append_ranges b first.smallest (take (n - 1) (behind f.ack_ranges))
  append_counts (has_ecn f) b f

pub length_ranges : ℕ → List AckRange → Result Error ℕ
unfolding encode_gap encode_length
length_ranges smallest [] = ok 0
length_ranges smallest (r ∷ rs) = do
  g ← len_varint (encode_gap smallest r)
  l ← len_varint (encode_length r)
  n ← length_ranges r.smallest rs
  ok (g + l + n)

pub length_counts : Bool → AckFrame → Result Error ℕ
length_counts false f = ok 0
length_counts true f = do
  a ← len_varint f.ect0
  b ← len_varint f.ect1
  c ← len_varint f.ecnce
  ok (a + b + c)

pub length_ack_frame : AckFrame → Result Error ℕ
unfolding encode_ack_delay encode_length has_ecn length_counts difference
length_ack_frame f = do
  first ← front f.ack_ranges
  n ← num_encodable_ack_ranges f
  a ← len_varint first.largest
  d ← len_varint (encode_ack_delay f.delay_time)
  c ← len_varint (difference n 1)
  l ← len_varint (encode_length first)
  rs ← length_ranges first.smallest (take (n - 1) (behind f.ack_ranges))
  e ← length_counts (has_ecn f) f
  ok (1 + a + d + c + l + rs + e)

unfoldable pub has_missing_ranges : AckFrame → Bool
has_missing_ranges f = ltb 1 (length f.ack_ranges)

-- `sort.Search`: the first range that does not begin above the number.
unfoldable pub search_range : ℕ → List AckRange → Result Error AckRange
search_range p [] = err out_of_range
search_range p (r ∷ rs) = let rest = search_range p rs in if leb r.smallest p then ok r else rest

pub acks_packet : AckFrame → ℕ → Result Error Bool
unfolding search_range
acks_packet f p = do
  first ← front f.ack_ranges
  if ltb p (last_of first (behind f.ack_ranges)).smallest || ltb first.largest p
      then ok false
      else do r ← search_range p f.ack_ranges; ok (leb p r.largest)

unfoldable pub reset_ack_frame : AckFrame → AckFrame
reset_ack_frame f = record { ack_ranges = []; delay_time = 0; ect0 = 0; ect1 = 0; ecnce = 0 }
