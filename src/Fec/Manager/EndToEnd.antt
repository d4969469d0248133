-- ===== src/Fec/Manager/EndToEnd.antt =====
-- internal/fec/manager.go and xor.go: a sender and a receiver of the XOR scheme together.
use x_fec.Base.{
  ℕ, ◌+◌, ◌*◌, ◌^◌, ◌<◌, ◌≤◌, max, List, [], ◌∷◌, true, ok, err, ◌≡◌, refl, arith, ◌∙◌, ap, Result,
  ◌⊎◌, inl, inr, length,
}
use x_fec.Wire.Symbols.{SourceSymbolFrame, RepairFrame}
use x_fec.Fec.Block.{Block, is_complete}
use x_fec.Fec.Block.Laws.{IsValid}
use x_fec.Fec.Errors.{Error}
use x_fec.Fec.Scheme.{BlockFecScheme}
use x_fec.Fec.Xor.{repair_symbols, recover_symbol_payloads, max_fec_packet_buffer_size}
use x_fec.Fec.Xor.Recovery.{repair_symbols_lem}
use x_fec.Fec.Xor.Restore.{recover-repair_symbols}
use x_fec.Fec.Manager.{
  Manager, settled, add_source_symbol_frame, handle_repair_frame, handle_source_symbol_frame,
  xor_scheme,
}
use x_fec.Fec.Manager.XorPair.{
  pair_block, IsPair, IsFresh, with_first, add_first_frame, handle_first_frame, add_second_frame,
  handle_repair_second,
}
use mathlib.Core.List.{Perm}
use mathlib.Core.List.Perm

settled_result :
    {A : Type 0} (m : Manager) (k : ℕ) (p : Block × Result Error A) → (settled m k p).1 ≡ p.1
settled_result m k (b, ok a) = refl
settled_result m k (b, err e) = refl

abbrev complete_pair : ℕ → SourceSymbolFrame → SourceSymbolFrame → Block
complete_pair k f g =
    pair_block k ((f.ssid, f.payload) ∷ (g.ssid, g.payload) ∷ []) []
      (max (length f.payload.bytes) (length g.payload.bytes))

complete_pair-IsValid :
    (k : ℕ) (f g : SourceSymbolFrame)
    → IsPair k f g
    → IsValid (complete_pair k f g) (max (length f.payload.bytes) (length g.payload.bytes))
complete_pair-IsValid k f g p = record {
  keys = ground arith;
  distinct = ground arith;
  fits = omega arith;
  biggest = refl;
}

half_pair-IsValid :
    (k n : ℕ) (f : SourceSymbolFrame) (payload : List ℕ)
    → 2 * k ≤ f.ssid
    → f.ssid ≤ 2 * k + 1
    → length f.payload.bytes ≤ n
    → IsValid (pair_block k ((f.ssid, f.payload) ∷ []) ((0, payload) ∷ []) n) n
half_pair-IsValid k n f payload lo hi fits = record {
  keys = omega arith;
  distinct = (refl, tt);
  fits = omega arith;
  biggest = refl;
}

complete_pair-is_complete :
    (k : ℕ) (f g : SourceSymbolFrame) → is_complete (complete_pair k f g) ≡ true
unfolding is_complete
complete_pair-is_complete k f g = refl

-- The frame `got` arrived and `lost` did not, and they are the frames `f` and `g`.
abbrev pub IsLoss :
    SourceSymbolFrame → SourceSymbolFrame → SourceSymbolFrame → SourceSymbolFrame → Type 0
IsLoss f g got lost = ((got ≡ f) × (lost ≡ g)) ⊎ ((got ≡ g) × (lost ≡ f))

loss_perm :
    (f g got lost : SourceSymbolFrame)
    → IsLoss f g got lost
    → Perm (f.payload ∷ g.payload ∷ []) (lost.payload ∷ got.payload ∷ [])
loss_perm f g got lost (inl (p, q)) = rw (p, q) (Perm.swap _ _ _)
loss_perm f g got lost (inr (p, q)) = rw (p, q) (Perm.refl _)

received_range :
    (k : ℕ) (f g got lost : SourceSymbolFrame)
    → IsPair k f g
    → IsLoss f g got lost
    → (2 * k ≤ got.ssid)
      × (got.ssid ≤ 2 * k + 1)
      × (length got.payload.bytes ≤ max (length f.payload.bytes) (length g.payload.bytes))
received_range k f g got lost p (inl (e, e')) = rw e (ground arith)
received_range k f g got lost p (inr (e, e')) = rw e (ground arith)

-- The block of the receiver: recovery gives the lost payload.
pair_recovers :
    (k : ℕ) (f g got lost : SourceSymbolFrame) (frame : RepairFrame)
    → k < 2 ^ 62
    → IsPair k f g
    → IsLoss f g got lost
    → length f.payload.bytes ≤ max_fec_packet_buffer_size
    → length g.payload.bytes ≤ max_fec_packet_buffer_size
    → repair_symbols (complete_pair k f g) ≡ ok (frame ∷ [])
    → (recover_symbol_payloads (
        pair_block k
          ((got.ssid, got.payload) ∷ [])
          ((0, frame.payload) ∷ [])
          (max (length f.payload.bytes) (length g.payload.bytes)))).1
      ≡ ok lost.payload.bytes
pair_recovers k f g got lost frame small p loss hf hg made =
    let n = max (length f.payload.bytes) (length g.payload.bytes) in
    let (lo, hi, fits) = received_range k f g got lost p loss in
    (recover-repair_symbols (complete_pair k f g)
      (pair_block k ((got.ssid, got.payload) ∷ []) ((0, frame.payload) ∷ []) n) frame lost.payload n
      0 (complete_pair-IsValid k f g p) (omega arith) refl (complete_pair-is_complete k f g) made
      (half_pair-IsValid k n got frame.payload lo hi fits) refl (omega arith) (omega arith) refl
      (loss_perm f g got lost loss)).0

-- A sender and a receiver of the XOR scheme have seen nothing of a block. The sender is given the two
-- source symbols of the block, none longer than a packet buffer less the FEC headers, and answers the
-- second with one repair symbol. If the receiver gets one of the two, in whichever order they were
-- sent, and then the repair symbol, it passes up the payload of the one and then of the lost one.
pub xor_pair_recovers :
    (s r : Manager) (k : ℕ) (f g got lost : SourceSymbolFrame)
    → IsFresh s k
    → s.scheme ≡ xor_scheme
    → IsFresh r k
    → r.scheme ≡ xor_scheme
    → IsPair k f g
    → IsLoss f g got lost
    → length f.payload.bytes ≤ max_fec_packet_buffer_size
    → length g.payload.bytes ≤ max_fec_packet_buffer_size
    → (repair : RepairFrame) × ((add_source_symbol_frame (add_source_symbol_frame s f).0 g).1
        ≡ ok (repair ∷ []))
      × ((handle_source_symbol_frame r got).1 ≡ ok got.payload.bytes)
      × ((handle_repair_frame (handle_source_symbol_frame r got).0 repair).1
          ≡ ok lost.payload.bytes)
xor_pair_recovers s r k f g got lost fs xs fr xr p loss hf hg =
    let n = max (length f.payload.bytes) (length g.payload.bytes) in
    let (payload, made, size, sums) =
      repair_symbols_lem (complete_pair k f g) n (complete_pair-IsValid k f g p)
        (complete_pair-is_complete k f g) refl (omega arith) in
    let frame : RepairFrame = record {
      metadata = record { block_id = k; parity_id = 0 };
      payload = payload;
    } in
    let (lo, hi, fits) = received_range k f g got lost p loss in
    let first = add_first_frame s k fs f (ground arith) (ground arith) in
    let came = handle_first_frame r k fr got lo hi in
    let b = pair_block k ((got.ssid, got.payload) ∷ []) ((0, payload) ∷ []) n in
    (
      frame,
      rw first (
          ap (λ t. t.1) (add_second_frame s k fs f g p)
          ∙ settled_result (with_first s k f) k (s.scheme.repair_symbols (complete_pair k f g))
          ∙ ap (λ (t : BlockFecScheme). (t.repair_symbols (complete_pair k f g)).1) xs
          ∙ made),
      rw came,
      rw came (
          ap (λ t. t.1) (handle_repair_second r k fr got frame n refl size)
          ∙ settled_result (with_first r k got) k (r.scheme.recover_symbol_payloads b)
          ∙ ap (λ (t : BlockFecScheme). (t.recover_symbol_payloads b).1) xr
          ∙ pair_recovers k f g got lost frame fr.small p loss hf hg made),
    )
