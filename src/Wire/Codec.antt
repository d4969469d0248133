-- ===== src/Wire/Codec.antt =====
-- What the proofs about frames share: one step of reading and of writing.
use x_fec.Base.{
  ℕ, ◌≤◌, List, ◌++◌, Result, ok, ◌≡◌, ap, ◌∙◌, arith, length, length-append, take_prefix,
  drop_prefix, le→leb, [], ◌∷◌, All, ◌>>=◌, sym,
}
use mathlib.Core.List.{append-nil, append_assoc}
use x_fec.Varint.{max_var_int8}
use x_fec.Varint.Codec.{encoding, append-encoding, len-encoding, read-encoding}
use x_fec.Wire.{
  Error, Parsed, lift, read_varint, append_varint, len_varint, read_full, read_payload,
}

pub append_varint-encoding :
    (b : List ℕ) (i : ℕ) → i ≤ max_var_int8 → append_varint b i ≡ ok (b ++ encoding i)
append_varint-encoding b i h = ap lift (append-encoding b i h)

pub read_varint-encoding :
    (i : ℕ) (rest : List ℕ) → i ≤ max_var_int8 → read_varint (encoding i ++ rest) ≡ ok (i, rest)
read_varint-encoding i rest h = ap lift (read-encoding i rest h)

pub len_varint-encoding : (i : ℕ) → i ≤ max_var_int8 → len_varint i ≡ ok (length (encoding i))
len_varint-encoding i h = ap lift (len-encoding i h)

-- Reading as many bytes as `p` has, from `p` and a rest.
pub read_full_prefix : (p rest : List ℕ) → read_full (length p) (p ++ rest) ≡ ok (p, rest)
unfolding read_full
read_full_prefix p rest = rw (
  le→leb (length p) (length (p ++ rest)) (omega (arith, length-append p rest)),
  take_prefix p rest,
  drop_prefix p rest,
)

pub read_payload_prefix : (p rest : List ℕ) → read_payload (length p) (p ++ rest) ≡ ok (p, rest)
unfolding read_payload
read_payload_prefix [] rest = ground arith
read_payload_prefix (x ∷ p) rest =
    ground (arith, length-append (x ∷ p) rest, take_prefix (x ∷ p) rest, drop_prefix (x ∷ p) rest)

-- `append` writes a head, which names the frame type, and a body behind the slice, as many bytes as
-- `len` says, and `parse` gives the frame back from the body and leaves what follows it.
abbrev pub RoundTrips :
    {F : Type 0}
    → List ℕ
    → (List ℕ → F → Result Error (List ℕ))
    → (F → Result Error ℕ)
    → (List ℕ → Parsed F)
    → F
    → List ℕ
    → List ℕ
    → Type 0
RoundTrips head append len parse f b rest =
    (body : List ℕ) × (append b f ≡ ok (b ++ (head ++ body)))
    × (len f ≡ ok (length (head ++ body)))
    × (parse (body ++ rest) ≡ ok (f, rest))

-- Numbers in a row, written and counted.
abbrev pub encodings : List ℕ → List ℕ
encodings [] = []
encodings (x ∷ xs) = encoding x ++ encodings xs

abbrev pub append_all : List ℕ → List ℕ → Result Error (List ℕ)
append_all b [] = ok b
append_all b (x ∷ xs) = append_varint b x >>= λ b'. append_all b' xs

pub append_all-encodings :
    (b xs : List ℕ) → All (λ x. x ≤ max_var_int8) xs → append_all b xs ≡ ok (b ++ encodings xs)
append_all-encodings b [] h = ap ok (sym (append-nil b))
append_all-encodings b (x ∷ xs) (h, hs) = rw (append_varint-encoding b x h) (
    append_all-encodings (b ++ encoding x) xs hs
    ∙ ap ok (append_assoc b (encoding x) (encodings xs)))

-- The same behind the byte of the frame type.
pub append_all_typed :
    (b : List ℕ) (t : ℕ) (xs : List ℕ)
    → All (λ x. x ≤ max_var_int8) xs
    → append_all (b ++ t ∷ []) xs ≡ ok (b ++ ((t ∷ []) ++ encodings xs))
append_all_typed b t xs h =
    append_all-encodings (b ++ t ∷ []) xs h ∙ ap ok (append_assoc b (t ∷ []) (encodings xs))
