-- ===== src/Wire/Stream/Split.antt =====
-- internal/wire/stream_frame.go: MaybeSplitOffFrame.
use x_fec.Base.{
  ℕ, ◌+◌, ◌-◌, ◌≤◌, ◌<◌, ◌≡◌, ◌++◌, Bool, true, false, ok, if◌then◌else◌, leb, ltb, refl, arith,
  ◌⊎◌, inl, inr, none, some, length, take, drop, Bool-cases, not, ◌||◌, ◌==◌, length-take,
  take-append-drop, leb→le, ap, sym, subst,
}
use x_fec.Varint.{max_var_int8}
use x_fec.Varint.Codec.{encoding}
use x_fec.Wire.Data.{fit_data}
use x_fec.Wire.{len_varint}
use x_fec.Wire.Codec.{len_varint-encoding}
use x_fec.Wire.Data.Fit.{size_of_length, len_varint_small, Fits, fit_data_lem}
use x_fec.Wire.Symbols.{max_packet_buffer_size}
use x_fec.Wire.Stream.{
  StreamFrame, length_stream_frame, max_data_len_stream, split_at, maybe_split_off_stream, len_if,
}

-- `g` is the front of `f` and `r` the rest: the data is cut, the offset goes on behind the cut, and
-- FIN stays with the rest.
abbrev pub IsSplit : StreamFrame → StreamFrame → StreamFrame → Type 0
IsSplit f g r =
    (1 ≤ length g.contents)
    × (g.contents ++ r.contents ≡ f.contents)
    × (g.stream_id ≡ f.stream_id)
    × (r.stream_id ≡ f.stream_id)
    × (g.offset ≡ f.offset)
    × (r.offset ≡ f.offset + length g.contents)
    × (g.fin ≡ false)
    × (r.fin ≡ f.fin)
    × (g.data_len_present ≡ f.data_len_present)
    × (r.data_len_present ≡ f.data_len_present)

abbrev pub IsOutcome : StreamFrame → ℕ → ℕ → Type 0
IsOutcome f max_size l =
    ((l ≤ max_size) × (maybe_split_off_stream f max_size ≡ ok (none, false, f)))
    ⊎ ((max_size < l) × (maybe_split_off_stream f max_size ≡ ok (none, true, f)))
    ⊎ ((max_size < l)
        × (g : StreamFrame) × (r : StreamFrame) × (maybe_split_off_stream f max_size
            ≡ ok (some g, true, r))
        × IsSplit f g r
        × (k : ℕ) × (length_stream_frame g ≡ ok k)
        × (k ≤ max_size))

len_if-small : (d : Bool) (k : ℕ) → k ≤ 16383 → len_if d k ≡ ok (size_of_length d k)
len_if-small true k h = len_varint_small k h
len_if-small false k h = refl

-- The front is made of `n` bytes of data, which are there.
unfoldable pub front : StreamFrame → ℕ → StreamFrame
front f n = record {
  stream_id = f.stream_id;
  offset = f.offset;
  contents = take n f.contents;
  fin = false;
  data_len_present = f.data_len_present;
  fec_protected = false;
}

-- The length of a frame, by the bytes of its stream ID and of its offset.
length-of :
    (f : StreamFrame) (s o : ℕ)
    → len_varint f.stream_id ≡ ok s
    → len_if (not (f.offset == 0)) f.offset ≡ ok o
    → length f.contents ≤ 16383
    → length_stream_frame f
      ≡ ok (1 + s + o + size_of_length f.data_len_present (length f.contents) + length f.contents)
unfolding length_stream_frame
length-of f s o es eo h = simp (es, eo, len_if-small f.data_len_present (length f.contents) h)

data_len :
    (f : StreamFrame) (m s o n : ℕ)
    → len_varint f.stream_id ≡ ok s
    → len_if (not (f.offset == 0)) f.offset ≡ ok o
    → fit_data f.data_len_present (1 + s + o + (if f.data_len_present then 1 else 0)) m ≡ ok n
    → max_data_len_stream f m ≡ ok n
unfolding max_data_len_stream
data_len f m s o n es eo en = simp (es, eo) en

offset_len :
    (i : ℕ)
    → i ≤ max_var_int8
    → len_if (not (i == 0)) i ≡ ok (if i == 0 then 0 else length (encoding i))
offset_len i h = elim (Bool-cases (i == 0)) [
  | inl e ↦ rw e refl
  | inr e ↦ rw e (len_varint-encoding i h)
]

small :
    (f : StreamFrame) (n : ℕ)
    → n ≤ length f.contents
    → length f.contents ≤ max_packet_buffer_size
    → (ltb (length f.contents) n || ltb max_packet_buffer_size (length f.contents - n)) ≡ false
small f n le h = ground arith

-- The outcome with the lengths of the stream ID and the offset given.
outcome :
    (f : StreamFrame) (m s o n : ℕ)
    → len_varint f.stream_id ≡ ok s
    → len_if (not (f.offset == 0)) f.offset ≡ ok o
    → length f.contents ≤ max_packet_buffer_size
    → max_data_len_stream f m ≡ ok n
    → Fits f.data_len_present (1 + s + o) m n
    → IsOutcome f m
        (1 + s + o + size_of_length f.data_len_present (length f.contents) + length f.contents)
unfolding maybe_split_off_stream split_at front
outcome f m s o n es eo hl en (hn, all, fits) =
    let el = length-of f s o es eo (omega arith) in
    let l = 1 + s + o + size_of_length f.data_len_present (length f.contents) + length f.contents in
    elim (Bool-cases (leb l m)) [
      | inl e ↦ inl (leb→le l m e, simp (el, en, e))
      | inr e ↦ elim (Bool-cases (n == 0)) [
        | inl z ↦ inr (inl (ground arith, simp (el, en, e, z)))
        | inr z ↦
            let n_le =
              all (length f.contents) (size_of_length f.data_len_present (length f.contents))
                (λ q. refl) (ground arith) in
            let cut : length (take n f.contents) ≡ n = ground (arith, length-take n f.contents) in
            inr (
              inr (
                ground arith,
                front f n,
                record f { offset = f.offset + n; contents = drop n f.contents },
                simp (el, en, e, z, small f n n_le hl),
                (
                  rw cut (ground arith),
                  take-append-drop n f.contents,
                  refl,
                  refl,
                  refl,
                  ap (λ k. f.offset + k) (sym cut),
                  refl,
                  refl,
                  refl,
                  refl,
                ),
                1 + s + o + size_of_length f.data_len_present n + n,
                subst
                    (λ k.
                      length_stream_frame (front f n)
                      ≡ ok (1 + s + o + size_of_length f.data_len_present k + k))
                    cut (length-of (front f n) s o es eo (rw cut hn)),
                fits (ground arith),
              ))
      ]
    ]

-- For a frame with at most 1452 bytes of data, with numbers that a varint can hold, and a limit of at
-- most 16383 bytes: a frame that fits is left whole; one that does not is left whole, with the answer
-- that splitting is required, or split in a front that fits and a rest.
pub maybe_split_off_stream_lem :
    (f : StreamFrame) (max_size : ℕ)
    → f.stream_id ≤ max_var_int8
    → f.offset ≤ max_var_int8
    → length f.contents ≤ max_packet_buffer_size
    → max_size ≤ 16383
    → (l : ℕ) × (length_stream_frame f ≡ ok l) × IsOutcome f max_size l
maybe_split_off_stream_lem f m hs ho hl hm =
    let s = length (encoding f.stream_id) in
    let o = if f.offset == 0 then 0 else length (encoding f.offset) in
    let es = len_varint-encoding f.stream_id hs in
    let eo = offset_len f.offset ho in
    let (n, en, fits) = fit_data_lem f.data_len_present (1 + s + o) m hm in
    (
      _,
      length-of f s o es eo (omega arith),
      outcome f m s o n es eo hl (data_len f m s o n es eo en) fits,
    )
