-- ===== src/Fec/Manager/RepairFirst.antt =====
-- internal/fec/manager.go: HandleSourceSymbolFrame after HandleRepairFrame for one block.
use x_fec.Base.{
  ℕ, ◌+◌, ◌*◌, ◌≤◌, [], ◌∷◌, true, false, ok, ◌≡◌, refl, arith, some, sym, ap, subst, length,
  if◌then◌else◌,
}
use x_fec.Base.Int.{pos, sub_ℕ, ltb_ℤ}
use x_fec.Wire.Symbols.{SourceSymbolFrame, RepairFrame}
use x_fec.Fec.Block.{Block, add_source_symbol, add_repair_symbol, is_complete, is_recoverable}
use x_fec.Fec.Manager.{
  Manager, put_status, with_block, on_entry, repair_block, receive_source, sid_to_block_id,
  handle_repair_frame, handle_source_symbol_frame, entry, collecting,
}
use x_fec.Fec.Manager.Laws.{entry-put_status, with_block-put_status}
use x_fec.Fec.Manager.XorPair.{pair_block, IsFresh, opened, block_of}

-- The block once the repair symbol is stored, and its manager.
abbrev repaired : ℕ → RepairFrame → Block
repaired k r = record (pair_block k [] ((r.metadata.parity_id, r.payload) ∷ []) 0) {
  biggest_source_symbol_len_so_far = sub_ℕ (length r.payload) 2;
}

abbrev with_repair : Manager → ℕ → RepairFrame → Manager
with_repair m k r =
    put_status (put_status m k (some (pair_block k [] [] 0)) false) k (some (repaired k r)) false

handle_first_repair :
    (m : Manager) (k : ℕ) (r : RepairFrame)
    → IsFresh m k
    → r.metadata.block_id ≡ k
    → handle_repair_frame m r ≡ (with_repair m k r, ok [])
unfolding handle_repair_frame on_entry repair_block
handle_first_repair m k r fresh same =
    let b = pair_block k [] [] 0 in
    let m0 = put_status m k (some b) false in
    let added : add_repair_symbol b r ≡ ok (repaired k r) =
      unfold add_repair_symbol in ground arith in
    subst
      (λ i.
        on_entry (with_block m i) i [] (repair_block (with_block m i) r)
        ≡ (with_repair m k r, ok []))
      (sym same)
      (rw (opened m k fresh) (
        rw (entry-put_status m k b, on_entry)
          (rw (added, repair_block)
            (unfold is_recoverable in
              ap (λ i. (put_status m0 i (some (repaired k r)) false, ok [])) same))))

-- The block once the source symbol is stored too.
abbrev with_both : ℕ → RepairFrame → SourceSymbolFrame → Block
with_both k r got = record (repaired k r) {
  ssid_to_source_payload = (got.ssid, got.payload) ∷ [];
  biggest_source_symbol_len_so_far =
      if ltb_ℤ (sub_ℕ (length r.payload) 2) (pos (length got.payload.bytes))
      then pos (length got.payload.bytes)
      else sub_ℕ (length r.payload) 2;
}

handle_source_after :
    (m : Manager) (k : ℕ) (r : RepairFrame) (got : SourceSymbolFrame)
    → IsFresh m k
    → 2 * k ≤ got.ssid
    → got.ssid ≤ 2 * k + 1
    → handle_source_symbol_frame (with_repair m k r) got
      ≡ (put_status (with_repair m k r) k (some (with_both k r got)) false, ok got.payload.bytes)
unfolding handle_source_symbol_frame on_entry receive_source
handle_source_after m k r got fresh lo hi =
    let m0 = put_status m k (some (pair_block k [] [] 0)) false in
    let b : Block = repaired k r in
    let placed : sid_to_block_id (with_repair m k r) got.ssid ≡ ok k =
      unfold sid_to_block_id in block_of m k fresh got.ssid lo hi in
    let added : add_source_symbol b got ≡ ok (with_both k r got) =
      unfold add_source_symbol in ground arith in
    rw (placed, handle_source_symbol_frame)
      (rw (with_block-put_status m0 k (some b) false) (
        rw (entry-put_status m0 k b, on_entry)
          (rw (added, receive_source) (unfold is_complete in refl))))

-- A manager of blocks of two source symbols and one repair symbol gets the repair symbol of a new
-- block first, and then one of the source symbols. It passes up the payload of that symbol only:
-- afterwards the block is recoverable, and still collects.
pub repair_first_waits :
    (m : Manager) (k : ℕ) (got : SourceSymbolFrame) (r : RepairFrame)
    → IsFresh m k
    → r.metadata.block_id ≡ k
    → 2 * k ≤ got.ssid
    → got.ssid ≤ 2 * k + 1
    → (b : Block) × ((handle_source_symbol_frame (handle_repair_frame m r).0 got).1
        ≡ ok got.payload.bytes)
      × (entry (handle_source_symbol_frame (handle_repair_frame m r).0 got).0 k ≡ collecting b)
      × (is_recoverable b ≡ true)
repair_first_waits m k got r fresh same lo hi =
    let first = handle_first_repair m k r fresh same in
    let second = handle_source_after m k r got fresh lo hi in
    (
      with_both k r got,
      rw first (rw second),
      rw first (rw second (entry-put_status (with_repair m k r) k (with_both k r got))),
      unfold is_recoverable in refl,
    )
