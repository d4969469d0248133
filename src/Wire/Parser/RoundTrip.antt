-- ===== src/Wire/Parser/RoundTrip.antt =====
-- internal/wire/frame_parser.go: one frame, written and read at the 1-RTT level.
use x_fec.Base.{
  ℕ, ◌≡◌, refl, ◌∙◌, subst, List, [], ◌∷◌, ◌++◌, true, false, ◌==◌, some, Result, ok, err, arith,
  length, leb,
}
use mathlib.Core.List.{append_assoc}
use x_fec.Varint.{max_var_int8}
use x_fec.Varint.Codec.{encoding}
use x_fec.Wire.{Error, Parsed, read_varint}
use x_fec.Wire.Codec.{RoundTrips, read_varint-encoding}
use x_fec.Wire.Parser.{
  Frame, EncryptionLevel, one_rtt, FrameParser, append_frame, length_frame, framed, allowed,
  parse_by_type, parse_frame, finished, parse_loop, parse_next,
}

-- The frame `f` is written behind `b`, as many bytes as its length says, and the parser reads `f'` from them.
pub record Passes (p : FrameParser) (b : List ℕ) (rest : List ℕ) (f : Frame) (f' : Frame)
    : Type 0 where
  pub contents : List ℕ
  pub appended : append_frame b f ≡ ok (b ++ contents)
  pub measured : length_frame f ≡ ok (length contents)
  pub parsed : parse_next p (contents ++ rest) one_rtt ≡ ok (some f', rest)

pub parse_next_typed :
    (p : FrameParser) (r r' : List ℕ) (typ : ℕ) (level : EncryptionLevel)
    → read_varint r ≡ ok (typ, r')
    → (typ == 0) ≡ false
    → parse_next p r level ≡ finished typ (parse_frame p r' typ level)
unfolding parse_next parse_loop
parse_next_typed p [] r' typ level e z = unfold x_fec.Varint.read in cc
parse_next_typed p (b ∷ r) r' typ level e z = rw (e, z) refl

pub allowed_one_rtt : (q : Parsed Frame) → allowed one_rtt q ≡ q
allowed_one_rtt (ok (f, r)) = refl
allowed_one_rtt (err e) = refl

-- A type in one byte.
pub small_type : (t : ℕ) (r : List ℕ) → leb t 63 ≡ true → read_varint (t ∷ r) ≡ ok (t, r)
small_type t r h =
    let e : encoding t ≡ t ∷ [] = unfold encoding in rw h refl in
    subst (λ l. read_varint (l ++ r) ≡ ok (t, r)) e (read_varint-encoding t r (ground arith))

-- A frame type whose parser reads the body back.
pub passes :
    {F : Type 0} (p : FrameParser) (c : F → Frame) (head : List ℕ) (typ : ℕ)
    (app : List ℕ → F → Result Error (List ℕ)) (len : F → Result Error ℕ)
    (parse : List ℕ → Parsed F) (f : F) (b rest : List ℕ)
    → ((r : List ℕ) → read_varint (head ++ r) ≡ ok (typ, r))
    → (typ == 0) ≡ false
    → ((r : List ℕ) → parse_by_type p r typ one_rtt ≡ framed c (parse r))
    → append_frame b (c f) ≡ app b f
    → length_frame (c f) ≡ len f
    → RoundTrips head app len parse f b rest
    → Passes p b rest (c f) (c f)
unfolding parse_frame
passes p c head typ app len parse f b rest t z q a l (body, w, m, g) = record {
  contents = head ++ body;
  appended = a ∙ w;
  measured = l ∙ m;
  parsed = rw (append_assoc head body rest) (
      parse_next_typed p (head ++ (body ++ rest)) (body ++ rest) typ one_rtt (t (body ++ rest)) z
      ∙ rw (q (body ++ rest), g) refl);
}
