-- ===== src/Fec/Manager/XorPair.antt =====
-- The XOR scheme of `NewSender` and `NewReceiver`: blocks of two source symbols and one repair symbol.
use x_fec.Base.{
  ℕ, ◌+◌, ◌*◌, ◌^◌, ◌<◌, ◌≤◌, max, List, [], ◌∷◌, false, ok, ◌≡◌, refl, arith, some, ◌∙◌, sym, ap,
  ap₂, subst, ◌⊎◌, length,
}
use x_fec.Base.Int.{pos}
use x_fec.Base.Dict.{Dict, has}
use x_fec.Wire.{Slice}
use x_fec.Wire.Symbols.{SourceSymbolFrame, RepairFrame}
use x_fec.Fec.Block.{
  Block, new_block, add_source_symbol, add_repair_symbol, is_complete, is_recoverable,
}
use x_fec.Fec.Manager.{
  Manager, with_block, put_status, sid_to_block_id, settled, on_entry, add_to_block, repair_block,
  receive_source, add_source_symbol_frame, handle_repair_frame, handle_source_symbol_frame,
}
use x_fec.Fec.Manager.Laws.{entry-put_status, with_block-put_status, with_block_fresh}

-- The block `k` of a manager of the XOR scheme.
abbrev pub pair_block : ℕ → Dict Slice → Dict (List ℕ) → ℕ → Block
pair_block k sources repairs n = record {
  id = k;
  ssid_to_source_payload = sources;
  pid_to_repair_payload = repairs;
  smallest_ssid = 2 * k;
  largest_ssid = 2 * k + 1;
  tot_num_source_symbols = 2;
  tot_num_repair_symbols = 1;
  biggest_source_symbol_len_so_far = pos n;
}

new_block-pair : (k : ℕ) → k < 2 ^ 62 → new_block k 2 1 ≡ pair_block k [] [] 0
unfolding new_block
new_block-pair k h = ground arith

-- The two frames of a block, in the order in which they come.
abbrev pub IsPair : ℕ → SourceSymbolFrame → SourceSymbolFrame → Type 0
IsPair k f g =
    (((f.ssid ≡ 2 * k) × (g.ssid ≡ 2 * k + 1)) ⊎ ((f.ssid ≡ 2 * k + 1) × (g.ssid ≡ 2 * k)))

add_first :
    (k : ℕ) (f : SourceSymbolFrame)
    → 2 * k ≤ f.ssid
    → f.ssid ≤ 2 * k + 1
    → add_source_symbol (pair_block k [] [] 0) f
      ≡ ok (pair_block k ((f.ssid, f.payload) ∷ []) [] (length f.payload.bytes))
unfolding add_source_symbol
add_first k f lo hi = ground arith

add_second :
    (k : ℕ) (f g : SourceSymbolFrame)
    → IsPair k f g
    → add_source_symbol (pair_block k ((f.ssid, f.payload) ∷ []) [] (length f.payload.bytes)) g
      ≡ ok (
          pair_block k
            ((f.ssid, f.payload) ∷ (g.ssid, g.payload) ∷ [])
            []
            (max (length f.payload.bytes) (length g.payload.bytes)))
unfolding add_source_symbol
add_second k f g p = ground arith

-- A manager with the counts of the XOR scheme that has seen nothing of the block `k`.
pub record IsFresh (m : Manager) (k : ℕ) : Type 0 where
  pub two : m.num_tot_source_symbols ≡ 2
  pub one : m.num_tot_repair_symbols ≡ 1
  pub small : k < 2 ^ 62
  pub unseen : has k m.block_statuses ≡ false

-- The manager after the first source symbol of the block.
abbrev pub with_first : Manager → ℕ → SourceSymbolFrame → Manager
with_first m k f =
    put_status (put_status m k (some (pair_block k [] [] 0)) false) k
      (some (pair_block k ((f.ssid, f.payload) ∷ []) [] (length f.payload.bytes))) false

module _ (m : Manager) (k : ℕ) (fresh : IsFresh m k) where
  pub opened : with_block m k ≡ put_status m k (some (pair_block k [] [] 0)) false
  opened =
      with_block_fresh m k fresh.unseen
      ∙ ap (λ b. put_status m k (some b) false)
          (ap₂ (new_block k) fresh.two fresh.one ∙ new_block-pair k fresh.small)

  pub block_of : (ssid : ℕ) → 2 * k ≤ ssid → ssid ≤ 2 * k + 1 → sid_to_block_id m ssid ≡ ok k
  unfolding sid_to_block_id
  block_of ssid lo hi = ground (arith, fresh.two)

  pub add_first_frame :
      (f : SourceSymbolFrame)
      → 2 * k ≤ f.ssid
      → f.ssid ≤ 2 * k + 1
      → add_source_symbol_frame m f ≡ (with_first m k f, ok [])
  unfolding add_source_symbol_frame on_entry add_to_block
  add_first_frame f lo hi =
      rw (block_of f.ssid lo hi, add_source_symbol_frame)
        (rw opened (
          rw (entry-put_status m k (pair_block k [] [] 0), on_entry)
            (rw (add_first k f lo hi, add_to_block) (unfold is_complete in refl))))

  pub handle_first_frame :
      (f : SourceSymbolFrame)
      → 2 * k ≤ f.ssid
      → f.ssid ≤ 2 * k + 1
      → handle_source_symbol_frame m f ≡ (with_first m k f, ok f.payload.bytes)
  unfolding handle_source_symbol_frame on_entry receive_source
  handle_first_frame f lo hi =
      rw (block_of f.ssid lo hi, handle_source_symbol_frame)
        (rw opened (
          rw (entry-put_status m k (pair_block k [] [] 0), on_entry)
            (rw (add_first k f lo hi, receive_source) (unfold is_complete in refl))))

  -- The second source symbol makes the block complete, and the scheme is asked for repair symbols.
  pub add_second_frame :
      (f g : SourceSymbolFrame)
      → IsPair k f g
      → add_source_symbol_frame (with_first m k f) g
        ≡ settled (with_first m k f) k (
            m.scheme.repair_symbols (
              pair_block k
                ((f.ssid, f.payload) ∷ (g.ssid, g.payload) ∷ [])
                []
                (max (length f.payload.bytes) (length g.payload.bytes))))
  unfolding add_source_symbol_frame on_entry add_to_block
  add_second_frame f g p =
      let b = pair_block k ((f.ssid, f.payload) ∷ []) [] (length f.payload.bytes) in
      let m0 = put_status m k (some (pair_block k [] [] 0)) false in
      let placed : sid_to_block_id (with_first m k f) g.ssid ≡ ok k =
        unfold sid_to_block_id in block_of g.ssid (ground arith) (ground arith) in
      rw (placed, add_source_symbol_frame)
        (rw (with_block-put_status m0 k (some b) false) (
          rw (entry-put_status m0 k b, on_entry)
            (rw (add_second k f g p, add_to_block) (unfold is_complete in refl))))

  -- The repair symbol, with the one source symbol that came, makes the block recoverable.
  pub handle_repair_second :
      (f : SourceSymbolFrame) (r : RepairFrame) (n : ℕ)
      → r.metadata.block_id ≡ k
      → length r.payload ≡ 2 + n
      → handle_repair_frame (with_first m k f) r
        ≡ settled (with_first m k f) k (
            m.scheme.recover_symbol_payloads
              (pair_block k ((f.ssid, f.payload) ∷ []) ((r.metadata.parity_id, r.payload) ∷ []) n))
  unfolding handle_repair_frame on_entry repair_block
  handle_repair_second f r n same size =
      let b = pair_block k ((f.ssid, f.payload) ∷ []) [] (length f.payload.bytes) in
      let m0 = put_status m k (some (pair_block k [] [] 0)) false in
      let added : add_repair_symbol b r
          ≡ ok
              (pair_block k ((f.ssid, f.payload) ∷ []) ((r.metadata.parity_id, r.payload) ∷ []) n) =
        unfold add_repair_symbol in ground arith in
      subst
        (λ i.
          on_entry (with_block (with_first m k f) i) i []
            (repair_block (with_block (with_first m k f) i) r)
          ≡ settled (with_first m k f) k (
              m.scheme.recover_symbol_payloads (
                pair_block k ((f.ssid, f.payload) ∷ []) ((r.metadata.parity_id, r.payload) ∷ [])
                  n)))
        (sym same)
        (rw (with_block-put_status m0 k (some b) false) (
          rw (entry-put_status m0 k b, on_entry)
            (rw (added, repair_block)
              (unfold is_recoverable in
                ap
                  (λ i. settled (with_first m k f) i (
                    m.scheme.recover_symbol_payloads (
                      pair_block k ((f.ssid, f.payload) ∷ [])
                        ((r.metadata.parity_id, r.payload) ∷ []) n)))
                  same))))
