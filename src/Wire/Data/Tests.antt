-- ===== src/Wire/Data/Tests.antt =====
-- internal/wire: the frames with bytes, at concrete inputs.
use x_fec.Base.{ℕ, [], ◌∷◌, ok, ◌≡◌, arith}
use x_fec.Wire.Data.{CryptoFrame, length_crypto_frame}
use x_fec.Wire.Data.Split.{IsOutcome, maybe_split_off_crypto_lem}

abbrev crypto : CryptoFrame
crypto = record { offset = 1000; contents = 5 ∷ 6 ∷ [] }

maybe_split_off_crypto_lem_example :
    (l : ℕ) × (length_crypto_frame crypto ≡ ok l) × IsOutcome crypto 5 l
maybe_split_off_crypto_lem_example =
    maybe_split_off_crypto_lem crypto 5 (omega arith) (omega arith) (omega arith)
