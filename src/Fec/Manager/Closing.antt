-- ===== src/Fec/Manager/Closing.antt =====
-- internal/fec/manager.go: a result that is not empty closes its block.
use x_fec.Base.{ℕ, List, [], ◌∷◌, ok, err, ◌≡◌, Result, Bool-cases, Result-cases, inl, inr}
use x_fec.Fec.Errors.{Error}
use x_fec.Fec.Block.{Block, add_source_symbol, add_repair_symbol, is_complete, is_recoverable}
use x_fec.Wire.Symbols.{SourceSymbolFrame, RepairFrame}
use x_fec.Fec.Manager.{Manager, processed, entry, settled, on_entry, add_to_block, repair_block}
use x_fec.Fec.Manager.Laws.{entry-put_status_processed, Entry-cases}

module _ {A : Type 0} (id : ℕ) (x : A) (xs : List A) where
  -- A result that is not empty leaves the block processed.
  abbrev pub Closes : Manager × Result Error (List A) → Type 0
  Closes r = r.1 ≡ ok (x ∷ xs) → entry r.0 id ≡ processed

  settled-Closes : (m : Manager) (r : Block × Result Error (List A)) → Closes (settled m id r)
  settled-Closes m (b, ok a) h = entry-put_status_processed m id
  settled-Closes m (b, err e) h = absurd (cc)

  pub on_entry-Closes :
      (m : Manager) (k : Block → Manager × Result Error (List A))
      → ((b : Block) → Closes (k b))
      → Closes (on_entry m id [] k)
  unfolding on_entry
  on_entry-Closes m k closes = elim (Entry-cases (entry m id)) [
    | inl e ↦ rw (e, on_entry) (λ h. absurd (cc))
    | inr (inl e) ↦ rw (e, on_entry) (λ h. absurd (cc))
    | inr (inr (b, e)) ↦ rw (e, on_entry) (closes b)
  ]

pub repair_block-Closes :
    (m : Manager) (f : RepairFrame) (b : Block) (x : ℕ) (xs : List ℕ)
    → Closes f.metadata.block_id x xs (repair_block m f b)
unfolding repair_block
repair_block-Closes m f b x xs = elim (Result-cases (add_repair_symbol b f)) [
  | inr (y, e) ↦ rw (e, repair_block) (λ h. absurd (cc))
  | inl (b', e) ↦
      rw (e, repair_block)
        (elim (Bool-cases (is_recoverable b')) [
          | inl full ↦
              rw full
                (settled-Closes f.metadata.block_id x xs m (m.scheme.recover_symbol_payloads b'))
          | inr more ↦ rw more (λ h. absurd (cc))
        ])
]

pub add_to_block-Closes :
    (m : Manager) (id : ℕ) (f : SourceSymbolFrame) (b : Block) (x : RepairFrame)
    (xs : List RepairFrame)
    → Closes id x xs (add_to_block m id f b)
unfolding add_to_block
add_to_block-Closes m id f b x xs = elim (Result-cases (add_source_symbol b f)) [
  | inr (y, e) ↦ rw (e, add_to_block) (λ h. absurd (cc))
  | inl (b', e) ↦
      rw (e, add_to_block)
        (elim (Bool-cases (is_complete b')) [
          | inl full ↦ rw full (settled-Closes id x xs m (m.scheme.repair_symbols b'))
          | inr more ↦ rw more (λ h. absurd (cc))
        ])
]
