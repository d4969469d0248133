-- ===== src/Fec/Block/Laws.antt =====
-- internal/fec/block.go: the invariant of a block.
use x_fec.Base.{
  ℕ, ◌+◌, ◌^◌, ◌≤◌, ◌<◌, [], ◌∷◌, true, ok, err, ◌==◌, length, ◌≡◌, refl, arith, All, Bool-cases,
  inl, inr, ◌⊎◌, List, some, false, not, ◌&&◌, if◌then◌else◌, ==_iff, max, ◌↔◌,
}
use x_fec.Base.Dict.{Dict, has, insert, lookup, values, lookup-insert, length-insert_new}
use x_fec.Base.Int.{pos}
use x_fec.Base.Keys.{NoDup, IsWithin, All-insert, NoDup-insert, pigeonhole, covers}
use x_fec.Wire.{Slice}
use x_fec.Wire.Symbols.{SourceSymbolFrame}
use x_fec.Fec.Errors.{wrong_block}
use x_fec.Fec.Block.{Block, new_block, add_source_symbol, is_complete}

-- The identifiers lie in the block's range, each once, and no payload is above the length `n`.
pub record IsValid (b : Block) (n : ℕ) : Type 0 where
  pub keys : All (λ e. IsWithin b.smallest_ssid b.largest_ssid e.0) b.ssid_to_source_payload
  pub distinct : NoDup b.ssid_to_source_payload
  pub fits : All (λ e. length e.1.bytes ≤ n) b.ssid_to_source_payload
  pub biggest : b.biggest_source_symbol_len_so_far ≡ pos n

-- A new block is empty, and for a count of symbols from 1 to 2^63 - 1 it counts as many as it was
-- asked for, also where the identifiers wrap.
pub new_block_lem :
    (id n m : ℕ)
    → 0 < n
    → n < 2 ^ 63
    → IsValid (new_block id n m) 0 × ((new_block id n m).tot_num_source_symbols ≡ n)
unfolding new_block
new_block_lem id n m h k =
    (record { keys = tt; distinct = tt; fits = tt; biggest = refl }, omega arith)

All-weaken :
    (n m : ℕ) (d : Dict Slice)
    → n ≤ m
    → All (λ e. length e.1.bytes ≤ n) d
    → All (λ e. length e.1.bytes ≤ m) d
All-weaken n m [] le h = tt
All-weaken n m ((k, v) ∷ d) le h = (omega (arith, h.0), All-weaken n m d le h.1)

-- The length that the payloads stay below once `f` is stored.
abbrev pub grown : Block → ℕ → SourceSymbolFrame → ℕ
grown b n f = if has f.ssid b.ssid_to_source_payload then n else max n (length f.payload.bytes)

-- The length of the longest payload.
abbrev pub longest : List Slice → ℕ
longest [] = 0
longest (s ∷ r) = max (length s.bytes) (longest r)

longest-insert :
    (k : ℕ) (v : Slice) (d : Dict Slice)
    → has k d ≡ false
    → longest (values (insert k v d)) ≡ max (longest (values d)) (length v.bytes)
longest-insert k v [] h = omega arith
longest-insert k v ((j, w) ∷ d) h = ground (arith, longest-insert k v d)

-- A block before and after a source symbol is stored: the first payload for an identifier stays, and nothing
-- else changes.
pub record Stored (b : Block) (f : SourceSymbolFrame) (b' : Block) : Type 0 where
  pub contents :
      (k : ℕ)
      → lookup k b'.ssid_to_source_payload ≡ (
          if not (has f.ssid b.ssid_to_source_payload) && k == f.ssid
          then some f.payload
          else lookup k b.ssid_to_source_payload)
  pub longest_payload :
      longest (values b'.ssid_to_source_payload)
      ≡ grown b (longest (values b.ssid_to_source_payload)) f
  pub same_id : b'.id ≡ b.id
  pub same_repair : b'.pid_to_repair_payload ≡ b.pid_to_repair_payload
  pub same_range : (b'.smallest_ssid ≡ b.smallest_ssid) × (b'.largest_ssid ≡ b.largest_ssid)
  pub same_counts :
      (b'.tot_num_source_symbols ≡ b.tot_num_source_symbols)
      × (b'.tot_num_repair_symbols ≡ b.tot_num_repair_symbols)

-- Storing a source symbol of the block's range succeeds. If the identifier has a payload already, the block stays as it
-- is; if not, the symbol's payload is stored under it, the other payloads stay, and the length that the
-- block records becomes the greater one of that and the payload's. The invariant is kept with that length.
pub add_source_symbol-IsValid :
    (b : Block) (n : ℕ) (f : SourceSymbolFrame)
    → IsValid b n
    → IsWithin b.smallest_ssid b.largest_ssid f.ssid
    → (b' : Block) × (add_source_symbol b f ≡ ok b') × IsValid b' (grown b n f) × Stored b f b'
unfolding add_source_symbol
add_source_symbol-IsValid b n f v (lo, hi) =
    elim (Bool-cases (has f.ssid b.ssid_to_source_payload)) [
      | inl old ↦ (
        b,
        ground arith,
        rw old v,
        record {
          contents = λ k. rw old refl;
          longest_payload = rw old refl;
          same_id = refl;
          same_repair = refl;
          same_range = (refl, refl);
          same_counts = (refl, refl);
        },
      )
      | inr new ↦ (
        record b {
          ssid_to_source_payload = insert f.ssid f.payload b.ssid_to_source_payload;
          biggest_source_symbol_len_so_far = pos (max n (length f.payload.bytes));
        },
        ground (arith, v.biggest),
        rw new (record {
          keys =
              All-insert (λ e. IsWithin b.smallest_ssid b.largest_ssid e.0) _ _ _ v.keys (lo, hi);
          distinct = NoDup-insert _ _ _ v.distinct;
          fits =
              All-insert (λ e. length e.1.bytes ≤ max n (length f.payload.bytes)) _ _ _
                (All-weaken n _ _ (omega arith) v.fits) (omega arith);
          biggest = refl;
        }),
        record {
          contents = λ k.
              rw new (ground (arith, lookup-insert f.ssid k f.payload b.ssid_to_source_payload));
          longest_payload = rw new (longest-insert f.ssid f.payload b.ssid_to_source_payload new);
          same_id = refl;
          same_repair = refl;
          same_range = (refl, refl);
          same_counts = (refl, refl);
        },
      )
    ]

-- A symbol outside the block's range is refused.
pub add_source_symbol_outside :
    (b : Block) (f : SourceSymbolFrame)
    → (f.ssid < b.smallest_ssid) ⊎ (b.largest_ssid < f.ssid)
    → add_source_symbol b f ≡ err wrong_block
unfolding add_source_symbol
add_source_symbol_outside b f h = ground arith

-- The block has a payload for every identifier of its range.
abbrev pub HasAll : Block → Type 0
HasAll b =
    (k : ℕ) → IsWithin b.smallest_ssid b.largest_ssid k → has k b.ssid_to_source_payload ≡ true

below_top :
    (lo hi n : ℕ) (d : Dict Slice)
    → hi + 1 ≡ lo + n
    → All (λ e. IsWithin lo hi e.0) d
    → All (λ e. (lo ≤ e.0) × (e.0 < lo + n)) d
below_top lo hi n [] e h = tt
below_top lo hi n ((k, v) ∷ d) e h = (omega (arith, h.0), below_top lo hi n d e h.1)

-- In a valid block whose range has as many identifiers as the block counts, `isComplete` says exactly
-- that every identifier of the range has a payload.
pub is_complete-HasAll :
    (b : Block) (n : ℕ)
    → IsValid b n
    → b.largest_ssid + 1 ≡ b.smallest_ssid + b.tot_num_source_symbols
    → (is_complete b ≡ true) ↔ HasAll b
unfolding is_complete
is_complete-HasAll b n v range = (all_present, enough)
  where
    at_most :
        (k : ℕ)
        → IsWithin b.smallest_ssid b.largest_ssid k
        → length (insert k (record { bytes = []; spare = [] }) b.ssid_to_source_payload)
          ≤ b.tot_num_source_symbols
    at_most k w =
        let d = insert k (record { bytes = []; spare = [] }) b.ssid_to_source_payload in
        pigeonhole b.smallest_ssid b.tot_num_source_symbols d (NoDup-insert _ _ _ v.distinct) (
          below_top _ b.largest_ssid _ d range
            (All-insert (λ e. IsWithin b.smallest_ssid b.largest_ssid e.0) _ _ _ v.keys w))

    all_present : (length b.ssid_to_source_payload == b.tot_num_source_symbols) ≡ true → HasAll b
    all_present e k w = elim (Bool-cases (has k b.ssid_to_source_payload)) [
      | inl yes' ↦ yes'
      | inr no' ↦ absurd (
          omega (
            arith,
            (==_iff _ _).0 e,
            at_most k w,
            length-insert_new k (record { bytes = []; spare = [] }) b.ssid_to_source_payload no',
          ))
    ]

    enough : HasAll b → (length b.ssid_to_source_payload == b.tot_num_source_symbols) ≡ true
    enough h = (==_iff _ _).1 (
        omega (
          arith,
          pigeonhole b.smallest_ssid b.tot_num_source_symbols b.ssid_to_source_payload v.distinct
              (below_top _ b.largest_ssid _ b.ssid_to_source_payload range v.keys),
          covers b.smallest_ssid b.tot_num_source_symbols b.ssid_to_source_payload
              (λ k p q. h k (p, omega arith)),
        ))
