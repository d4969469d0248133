-- ===== src/Fec/Xor/Added.antt =====
-- internal/fec/xor.go on a sender's block, which is made new and filled symbol by symbol.
use x_fec.Base.{
  same_value, ap, ℕ, ◌+◌, ◌≤◌, ◌<◌, ◌≡◌, refl, sym, subst, ◌∙◌, List, [], ◌∷◌, true, Result, ok,
  err, ◌>>=◌, Result-cases, Bool-cases, inl, inr, ◌⊎◌, ltb, arith, length,
}
use x_fec.Base.Dict.{values}
use x_fec.Base.Keys.{IsWithin}
use x_fec.Wire.Symbols.{SourceSymbolFrame}
use x_fec.Fec.Errors.{Error}
use x_fec.Fec.Block.{Block, new_block, add_source_symbol, is_complete}
use x_fec.Fec.Block.Laws.{IsValid, longest, add_source_symbol-IsValid, add_source_symbol_outside}
use x_fec.Fec.Xor.{repair_symbols, max_fec_packet_buffer_size}
use x_fec.Fec.Xor.Sum.{byte_at, sum_at}
use x_fec.Fec.Xor.Recovery.{repair_symbols_lem}

-- Source symbols are stored one after the other, up to the first error.
unfoldable pub add_all : Block → List SourceSymbolFrame → Result Error Block
add_all b [] = ok b
add_all b (f ∷ fs) = add_source_symbol b f >>= λ b'. add_all b' fs

-- A block whose recorded length is that of its longest payload.
record IsTight (b : Block) : Type 0 where
  valid : IsValid b (longest (values b.ssid_to_source_payload))
  one_repair : b.tot_num_repair_symbols ≡ 1

range-cases : (lo hi k : ℕ) → IsWithin lo hi k ⊎ ((k < lo) ⊎ (hi < k))
range-cases lo hi k = elim (Bool-cases (ltb k lo)) [
  | inl e ↦ inr (inl (ground arith))
  | inr e ↦ elim (Bool-cases (ltb hi k)) [
    | inl d ↦ inr (inr (ground arith))
    | inr d ↦ inl (ground arith)
  ]
]

step-IsTight :
    (b b' : Block) (f : SourceSymbolFrame)
    → IsTight b
    → add_source_symbol b f ≡ ok b'
    → IsTight b' × (b'.id ≡ b.id)
step-IsTight b b' f t e = elim (range-cases b.smallest_ssid b.largest_ssid f.ssid) [
  | inr o ↦ absurd (let x = sym e ∙ add_source_symbol_outside b f o in cc)
  | inl w ↦
      let (c, d, v, s) =
        add_source_symbol-IsValid b (longest (values b.ssid_to_source_payload)) f t.valid w in
      same_value (λ x. IsTight x × (x.id ≡ b.id)) c b' (add_source_symbol b f) d e
        (
          record {
            valid = subst (IsValid c) (sym s.longest_payload) v;
            one_repair = s.same_counts.1 ∙ t.one_repair;
          },
          s.same_id,
        )
]

add_all-IsTight :
    (b b' : Block) (fs : List SourceSymbolFrame)
    → IsTight b
    → add_all b fs ≡ ok b'
    → IsTight b' × (b'.id ≡ b.id)
unfolding add_all
add_all-IsTight b b' [] t e =
    same_value (λ x. IsTight x × (x.id ≡ b.id)) b b' (add_all b []) refl e (t, refl)
add_all-IsTight b b' (f ∷ fs) t e = elim (Result-cases (add_source_symbol b f)) [
  | inr (x, d) ↦
      absurd (let y : err x ≡ ok b' = sym (ap (λ r. r >>= λ c. add_all c fs) d) ∙ e in cc)
  | inl (c, d) ↦
      let (u, i) = step-IsTight b c f t d in
      let (w, j) = add_all-IsTight c b' fs u (sym (ap (λ r. r >>= λ c. add_all c fs) d) ∙ e) in
      (w, j ∙ i)
]

-- When the source symbols of a sender have filled a new block that makes one repair symbol, and its payloads leave
-- room for the FEC headers, it is made under number 0 of the block; it is two bytes longer than the longest payload in the block,
-- and each of its bytes is the exclusive or of what the source symbols have there.
pub repair_symbols-add_all :
    (id n : ℕ) (fs : List SourceSymbolFrame) (b : Block)
    → add_all (new_block id n 1) fs ≡ ok b
    → is_complete b ≡ true
    → longest (values b.ssid_to_source_payload) ≤ max_fec_packet_buffer_size
    → let l = longest (values b.ssid_to_source_payload) in
      (payload : List ℕ) × (repair_symbols b
        ≡ ok
            (record { metadata = record { block_id = id; parity_id = 0 }; payload = payload } ∷ []))
      × (length payload ≡ 2 + l)
      × ((i : ℕ) → i < 2 + l → byte_at payload i ≡ sum_at l (values b.ssid_to_source_payload) i)
unfolding new_block
repair_symbols-add_all id n fs b e full room =
    let t : IsTight (new_block id n 1) = record {
      valid = record { keys = tt; distinct = tt; fits = tt; biggest = refl };
      one_repair = refl;
    } in
    let (u, i) = add_all-IsTight (new_block id n 1) b fs t e in
    let r =
      repair_symbols_lem b (longest (values b.ssid_to_source_payload)) u.valid full u.one_repair
        room in
    subst
      (λ k.
        (payload : List ℕ) × (repair_symbols b
          ≡ ok (
              record { metadata = record { block_id = k; parity_id = 0 }; payload = payload } ∷ []))
        × (length payload ≡ 2 + longest (values b.ssid_to_source_payload))
        × ((j : ℕ)
            → j < 2 + longest (values b.ssid_to_source_payload)
            → byte_at payload j
              ≡ sum_at (longest (values b.ssid_to_source_payload)) (values b.ssid_to_source_payload)
                  j))
      i r
