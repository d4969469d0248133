-- ===== src/Fec/Manager/Elsewhere.antt =====
-- internal/fec/manager.go: what the operations on one block leave of another.
use x_fec.Base.{
  ℕ, true, false, ok, err, ◌≡◌, refl, none, some, ◌==◌, Result, Bool-cases, Result-cases, inl, inr,
}
use x_fec.Base.Dict.{has}
use x_fec.Fec.Errors.{Error}
use x_fec.Fec.Block.{Block, add_source_symbol, add_repair_symbol, is_complete, is_recoverable}
use x_fec.Wire.Symbols.{SourceSymbolFrame, RepairFrame}
use x_fec.Fec.Manager.{
  Manager, entry, with_block, settled, on_entry, add_to_block, repair_block, receive_source,
}
use x_fec.Fec.Manager.Laws.{entry_elsewhere, Entry-cases}

-- A symbol of another block leaves the entry as it is.
pub with_block_elsewhere :
    (m : Manager) (id j : ℕ) → (id == j) ≡ false → entry (with_block m id) j ≡ entry m j
unfolding with_block
with_block_elsewhere m id j d = elim (Bool-cases (has id m.block_statuses)) [
  | inl e ↦ rw e refl
  | inr e ↦ rw e ((entry_elsewhere m id j _ false d).0)
]

module _ (j id : ℕ) (d : (id == j) ≡ false) where
  settled_elsewhere :
      {A : Type 0} (m : Manager) (r : Block × Result Error A)
      → entry (settled m id r).0 j ≡ entry m j
  settled_elsewhere m (b, ok a) = (entry_elsewhere m id j none true d).0
  settled_elsewhere m (b, err e) = (entry_elsewhere m id j (some b) false d).0

  pub on_entry_elsewhere :
      {A : Type 0} (m : Manager) (z : A) (k : Block → Manager × Result Error A)
      → ((b : Block) → entry (k b).0 j ≡ entry m j)
      → entry (on_entry m id z k).0 j ≡ entry m j
  unfolding on_entry
  on_entry_elsewhere m z k same = elim (Entry-cases (entry m id)) [
    | inl e ↦ rw (e, on_entry) refl
    | inr (inl e) ↦ rw (e, on_entry) refl
    | inr (inr (b, e)) ↦ rw (e, on_entry) (same b)
  ]

  pub add_to_block_elsewhere :
      (m : Manager) (f : SourceSymbolFrame) (b : Block)
      → entry (add_to_block m id f b).0 j ≡ entry m j
  unfolding add_to_block
  add_to_block_elsewhere m f b = elim (Result-cases (add_source_symbol b f)) [
    | inr (x, e) ↦ rw (e, add_to_block) refl
    | inl (b', e) ↦
        rw (e, add_to_block)
          (elim (Bool-cases (is_complete b')) [
            | inl full ↦ rw full (settled_elsewhere m (m.scheme.repair_symbols b'))
            | inr more ↦ rw more ((entry_elsewhere m id j (some b') false d).0)
          ])
  ]

  pub receive_source_elsewhere :
      (m : Manager) (f : SourceSymbolFrame) (b : Block)
      → entry (receive_source m id f b).0 j ≡ entry m j
  unfolding receive_source
  receive_source_elsewhere m f b = elim (Result-cases (add_source_symbol b f)) [
    | inr (x, e) ↦ rw (e, receive_source) refl
    | inl (b', e) ↦
        rw (e, receive_source)
          (elim (Bool-cases (is_complete b')) [
            | inl full ↦ rw full ((entry_elsewhere m id j none true d).0)
            | inr more ↦ rw more ((entry_elsewhere m id j (some b') false d).0)
          ])
  ]

  pub repair_block_elsewhere :
      (m : Manager) (f : RepairFrame) (b : Block)
      → f.metadata.block_id ≡ id
      → entry (repair_block m f b).0 j ≡ entry m j
  unfolding repair_block
  repair_block_elsewhere m f b s = elim (Result-cases (add_repair_symbol b f)) [
    | inr (x, e) ↦ rw (e, repair_block) refl
    | inl (b', e) ↦
        rw (e, repair_block)
          (elim (Bool-cases (is_recoverable b')) [
            | inl full ↦ rw (full, s) (settled_elsewhere m (m.scheme.recover_symbol_payloads b'))
            | inr more ↦ rw (more, s) ((entry_elsewhere m id j (some b') false d).0)
          ])
  ]
