-- ===== src/Varint/Tests.antt =====
-- Runs on concrete numbers, and the theorems at concrete inputs.
use x_fec.Base.{ℕ, List, [], ◌∷◌, ◌++◌, ok, err, ◌≡◌, refl, arith, length}
use x_fec.Varint.{read, append, len, eof}
use x_fec.Varint.Codec.{read-append}
use x_fec.Varint.Padded.{Widened, append_with_len-Widened}

-- The samples of RFC 9000, appendix A.1.
read_151288809941952652 :
    read (0xc2 ∷ 0x19 ∷ 0x7c ∷ 0x5e ∷ 0xff ∷ 0x14 ∷ 0xe8 ∷ 0x8c ∷ []) ≡ ok (151288809941952652, [])
unfolding read
read_151288809941952652 = refl

read_15293 : read (0x7b ∷ 0xbd ∷ 9 ∷ []) ≡ ok (15293, 9 ∷ [])
unfolding read
read_15293 = refl

read_cut : read (0x9d ∷ 0x7f ∷ 0x3e ∷ []) ≡ err eof
unfolding read
read_cut = refl

read-append_example :
    (e : List ℕ) × (append (7 ∷ []) 494878333 ≡ ok (7 ∷ e))
    × (len 494878333 ≡ ok (length e))
    × (read (e ++ 1 ∷ []) ≡ ok (494878333, 1 ∷ []))
read-append_example = read-append (7 ∷ []) (1 ∷ []) 494878333 (omega arith)

len_37 : len 37 ≡ ok 1
unfolding len
len_37 = refl

append_with_len-Widened_example : Widened [] (5 ∷ []) 37 4
append_with_len-Widened_example =
    append_with_len-Widened [] (5 ∷ []) 37 1 4 len_37 (omega arith) (omega arith)
