-- ===== src/Fec/Xor/Recovery.antt =====
-- internal/fec/xor.go: repairSymbols, and the buffer of recoverSymbolPayloads.
use x_fec.Base.{
  ℕ, suc, ◌+◌, ◌*◌, ◌/◌, ◌%◌, ◌^◌, ◌≤◌, ◌<◌, List, [], ◌∷◌, ok, ◌>>=◌, length, bit_xor, bit_or, ◌≡◌,
  refl, ap, ◌∙◌, arith, All, replicate, take, drop, length-replicate, true,
}
use x_fec.Base.Bits.{or_high_low}
use x_fec.Base.Xor.{xor_assoc, xor-zero, zero-bit_xor, xor_self}
use x_fec.Base.Int.{pos}
use x_fec.Base.Dict.{Dict, values}
use x_fec.Wire.{Slice}
use x_fec.Wire.Symbols.{max_packet_buffer_size}
use x_fec.Fec.Block.{Block, is_complete}
use x_fec.Fec.Block.Laws.{IsValid}
use x_fec.Fec.Xor.{
  xor_sources, xor_repairs, repair_symbols, make_repair, recovered_payload,
  max_fec_packet_buffer_size, index, slice_to,
}
use x_fec.Fec.Xor.Sum.{
  byte_at, share, sum_at, xor_sources_lem, xor_repair_lem, sum_at-perm, byte_at-replicate, take_ext,
  share_bytes, share_high, share_low,
}
use mathlib.Core.List.{Perm}

pub fits_values :
    (n : ℕ) (d : Dict Slice)
    → All (λ e. length e.1.bytes ≤ n) d
    → All (λ p. length p.bytes ≤ n) (values d)
fits_values n [] h = tt
fits_values n ((k, p) ∷ d) (h, hs) = (h, fits_values n d hs)

pub length-values : (d : Dict Slice) → length (values d) ≡ length d
length-values [] = refl
length-values ((k, p) ∷ d) = ap suc (length-values d)

length_zeros : (n : ℕ) → length {A = ℕ} (replicate n 0) ≡ n
length_zeros n = length-replicate n 0

-- The payload of the repair symbol of `b`: the sum of the source symbols over zeros.
repair_payload : (b : Block) (n : ℕ) → IsValid b n → List ℕ
repair_payload b n v =
    (xor_sources_lem (values b.ssid_to_source_payload) (replicate (2 + n) 0) n
      (fits_values n _ v.fits) (omega (arith, length_zeros (2 + n)))).0

repair_payload_lem :
    (b : Block) (n : ℕ) (v : IsValid b n)
    → (xor_sources (replicate (2 + n) 0) (values b.ssid_to_source_payload) (pos n)
        ≡ ok (repair_payload b n v))
      × (length (repair_payload b n v) ≡ 2 + n)
      × ((i : ℕ)
          → i < 2 + n
          → byte_at (repair_payload b n v) i ≡ sum_at n (values b.ssid_to_source_payload) i)
unfolding repair_payload
repair_payload_lem b n v =
    let (out, e, added) =
      xor_sources_lem (values b.ssid_to_source_payload) (replicate (2 + n) 0) n
        (fits_values n _ v.fits) (omega (arith, length_zeros (2 + n))) in
    (
      e,
      added.0 ∙ length_zeros (2 + n),
      λ i lt.
          added.1 i (omega (arith, length_zeros (2 + n)))
          ∙ ap (λ x. bit_xor x (sum_at n (values b.ssid_to_source_payload) i))
              (byte_at-replicate (2 + n) i)
          ∙ zero-bit_xor _,
    )

-- A complete block with one repair symbol to make, whose payloads leave room for the FEC headers,
-- has exactly one repair symbol: number 0 of the block, two bytes longer than the length that the block
-- records, and each of its bytes is the exclusive or of what the source symbols have there.
pub repair_symbols_lem :
    (b : Block) (n : ℕ)
    → IsValid b n
    → is_complete b ≡ true
    → b.tot_num_repair_symbols ≡ 1
    → n ≤ max_fec_packet_buffer_size
    → (payload : List ℕ) × (repair_symbols b
        ≡ ok (
            record { metadata = record { block_id = b.id; parity_id = 0 }; payload = payload }
            ∷ []))
      × (length payload ≡ 2 + n)
      × ((i : ℕ) → i < 2 + n → byte_at payload i ≡ sum_at n (values b.ssid_to_source_payload) i)
unfolding repair_symbols make_repair
repair_symbols_lem b n v full one room =
    let (made, size, sums) = repair_payload_lem b n v in
    (repair_payload b n v, ground (arith, v.biggest, made), size, sums)

-- The sum of the repair payload and of the source symbols that arrived is the share of the lost one.
pub buffer_lem :
    (out : List ℕ) (p : Slice) (got all : List Slice) (n : ℕ)
    → n ≤ max_fec_packet_buffer_size
    → length out ≡ 2 + n
    → ((i : ℕ) → i < 2 + n → byte_at out i ≡ sum_at n all i)
    → All (λ q. length q.bytes ≤ n) got
    → Perm all (p ∷ got)
    → (buf : List ℕ) × ((xor_repairs (replicate max_packet_buffer_size 0) (out ∷ []) >>= λ b.
          xor_sources b got (pos n))
        ≡ ok buf)
      × (length buf ≡ max_packet_buffer_size)
      × ((i : ℕ) → i < 2 + n → byte_at buf i ≡ share n p.bytes i)
unfolding xor_repairs
buffer_lem out p got all n room size sums fits perm =
    let zeros = length_zeros max_packet_buffer_size in
    let (b1, e1, a1) =
      xor_repair_lem (replicate max_packet_buffer_size 0) out (omega (arith, zeros)) in
    let (b2, e2, a2) = xor_sources_lem got b1 n fits (omega (arith, zeros, a1.0)) in
    (
      b2,
      rw e1 e2,
      a2.0 ∙ a1.0 ∙ zeros,
      λ i lt.
          a2.1 i (omega (arith, zeros, a1.0))
          ∙ ap (λ x. bit_xor x (sum_at n got i))
              (a1.1 i (omega (arith, zeros))
                ∙ ap (λ x. bit_xor x (byte_at out i)) (byte_at-replicate max_packet_buffer_size i)
                ∙ zero-bit_xor (byte_at out i)
                ∙ sums i lt
                ∙ sum_at-perm n perm i)
          ∙ xor_assoc (share n p.bytes i) (sum_at n got i) (sum_at n got i)
          ∙ ap (λ x. bit_xor (share n p.bytes i) x) (xor_self (sum_at n got i))
          ∙ xor-zero (share n p.bytes i),
    )

-- The payload is cut out by the length behind it.
pub cut_lem :
    (buf : List ℕ) (p : Slice) (n : ℕ)
    → n ≤ max_fec_packet_buffer_size
    → length buf ≡ max_packet_buffer_size
    → length p.bytes ≤ n
    → ((i : ℕ) → i < 2 + n → byte_at buf i ≡ share n p.bytes i)
    → recovered_payload buf (pos n)
      ≡ ok (record { bytes = p.bytes; spare = drop (length p.bytes) buf })
unfolding recovered_payload index slice_to
cut_lem buf p n room size fits shares =
    let l = length p.bytes in
    let high : byte_at buf n ≡ l / 256 =
      shares n (omega arith) ∙ share_high n p.bytes fits ∙ omega arith in
    let low : byte_at buf (n + 1) ≡ l % 256 =
      shares (n + 1) (omega arith) ∙ share_low n p.bytes fits ∙ omega arith in
    let both : bit_or (l / 256 * 2 ^ 8 % 2 ^ 16) (l % 256) ≡ l =
      ap (λ x. bit_or x (l % 256))
        (let e : l / 256 * 2 ^ 8 % 2 ^ 16 ≡ l / 256 * 2 ^ 8 = omega arith in e)
      ∙ or_high_low (l / 256) (l % 256) (omega arith)
      ∙ omega arith in
    let cut : take l buf ≡ p.bytes =
      take_ext p.bytes buf (omega arith)
        (λ i lt. shares i (omega arith) ∙ share_bytes n p.bytes i (omega arith)) in
    ground (arith, high, low, both, cut)
