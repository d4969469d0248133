-- ===== src/Fec/Manager/Once.antt =====
-- internal/fec/manager.go: a block that gave its result, over any later operations.
use x_fec.Base.{
  ℕ, List, [], ◌∷◌, ok, ◌≡◌, refl, arith, ◌==◌, ◌∙◌, sym, ap, subst, Bool-cases, ==_iff,
  Result-cases, inl, inr,
}
use x_fec.Wire.Symbols.{SourceSymbolFrame, RepairFrame}
use x_fec.Fec.Manager.{
  Manager, processed, entry, with_block, sid_to_block_id, on_entry, add_to_block, repair_block,
  receive_source, add_source_symbol_frame, handle_repair_frame, handle_source_symbol_frame,
}
use x_fec.Fec.Manager.Elsewhere.{
  with_block_elsewhere, on_entry_elsewhere, add_to_block_elsewhere, receive_source_elsewhere,
  repair_block_elsewhere,
}
use x_fec.Fec.Manager.Closing.{Closes, on_entry-Closes, repair_block-Closes, add_to_block-Closes}

-- The operations of a manager.
pub data Op : Type 0 where
  sends receives : SourceSymbolFrame → Op
  repairs : RepairFrame → Op

abbrev pub apply : Op → Manager → Manager
apply (sends f) m = (add_source_symbol_frame m f).0
apply (receives f) m = (handle_source_symbol_frame m f).0
apply (repairs r) m = (handle_repair_frame m r).0

unfoldable pub run : List Op → Manager → Manager
run [] m = m
run (x ∷ xs) m = run xs (apply x m)

entry_there : (m : Manager) (id : ℕ) → entry m id ≡ processed → with_block m id ≡ m
unfolding entry with_block
entry_there m id p = ground arith

-- What a processed block does with its symbols.
pub record Ignores (m : Manager) (id : ℕ) : Type 0 where
  pub repair_ignored :
      (r : RepairFrame) → r.metadata.block_id ≡ id → handle_repair_frame m r ≡ (m, ok [])
  pub source_ignored :
      (f : SourceSymbolFrame)
      → sid_to_block_id m f.ssid ≡ ok id
      → (handle_source_symbol_frame m f ≡ (m, ok [])) × (add_source_symbol_frame m f ≡ (m, ok []))

processed-Ignores : (m : Manager) (id : ℕ) → entry m id ≡ processed → Ignores m id
unfolding handle_repair_frame handle_source_symbol_frame add_source_symbol_frame
processed-Ignores m id p =
    let there = entry_there m id p in
    record {
      repair_ignored = λ r same.
          subst (λ i. on_entry (with_block m i) i [] (repair_block (with_block m i) r) ≡ (m, ok []))
            (sym same) (rw there (unfold on_entry in rw (p, on_entry)));
      source_ignored = λ f e. (
        rw (e, handle_source_symbol_frame) (rw there (unfold on_entry in rw (p, on_entry))),
        rw (e, add_source_symbol_frame) (rw there (unfold on_entry in rw (p, on_entry))),
      );
    }

sends_kept :
    (f : SourceSymbolFrame) (m : Manager) (id : ℕ)
    → entry m id ≡ processed
    → entry (add_source_symbol_frame m f).0 id ≡ processed
unfolding add_source_symbol_frame
sends_kept f m id p = elim (Result-cases (sid_to_block_id m f.ssid)) [
  | inr (x, e) ↦ rw (e, add_source_symbol_frame) p
  | inl (i, e) ↦ elim (Bool-cases (i == id)) [
    | inl q ↦
        ap (λ r. entry r.0 id)
          (((processed-Ignores m id p).source_ignored f (e ∙ ap (λ k. ok k) ((==_iff i id).0 q))).1)
        ∙ p
    | inr q ↦
        rw (e, add_source_symbol_frame)
          (on_entry_elsewhere id i q (with_block m i) [] (add_to_block (with_block m i) i f)
              (add_to_block_elsewhere id i q (with_block m i) f)
            ∙ (with_block_elsewhere m i id q ∙ p))
  ]
]

receives_kept :
    (f : SourceSymbolFrame) (m : Manager) (id : ℕ)
    → entry m id ≡ processed
    → entry (handle_source_symbol_frame m f).0 id ≡ processed
unfolding handle_source_symbol_frame
receives_kept f m id p = elim (Result-cases (sid_to_block_id m f.ssid)) [
  | inr (x, e) ↦ rw (e, handle_source_symbol_frame) p
  | inl (i, e) ↦ elim (Bool-cases (i == id)) [
    | inl q ↦
        ap (λ r. entry r.0 id)
          (((processed-Ignores m id p).source_ignored f (e ∙ ap (λ k. ok k) ((==_iff i id).0 q))).0)
        ∙ p
    | inr q ↦
        rw (e, handle_source_symbol_frame)
          (on_entry_elsewhere id i q (with_block m i) [] (receive_source (with_block m i) i f)
              (receive_source_elsewhere id i q (with_block m i) f)
            ∙ (with_block_elsewhere m i id q ∙ p))
  ]
]

repairs_kept :
    (r : RepairFrame) (m : Manager) (id : ℕ)
    → entry m id ≡ processed
    → entry (handle_repair_frame m r).0 id ≡ processed
unfolding handle_repair_frame
repairs_kept r m id p = elim (Bool-cases (r.metadata.block_id == id)) [
  | inl q ↦
      ap (λ r. entry r.0 id)
        ((processed-Ignores m id p).repair_ignored r ((==_iff r.metadata.block_id id).0 q))
      ∙ p
  | inr q ↦
      let i = r.metadata.block_id in
      on_entry_elsewhere id i q (with_block m i) [] (repair_block (with_block m i) r)
        (λ b. repair_block_elsewhere id i q (with_block m i) r b refl)
      ∙ (with_block_elsewhere m i id q ∙ p)
]

kept_processed :
    (x : Op) (m : Manager) (id : ℕ) → entry m id ≡ processed → entry (apply x m) id ≡ processed
kept_processed (sends f) m id p = sends_kept f m id p
kept_processed (receives f) m id p = receives_kept f m id p
kept_processed (repairs r) m id p = repairs_kept r m id p

run_processed :
    (xs : List Op) (m : Manager) (id : ℕ) → entry m id ≡ processed → entry (run xs m) id ≡ processed
unfolding run
run_processed [] m id p = p
run_processed (x ∷ xs) m id p = run_processed xs (apply x m) id (kept_processed x m id p)

-- An operation that gave a block's result: a repair frame with which a payload was recovered, or a source symbol
-- with which the repair symbols were made.
pub data Gives (m : Manager) (id : ℕ) : Op → Type 0 where
  recovers :
      (r : RepairFrame) (x : ℕ) (xs : List ℕ)
      → r.metadata.block_id ≡ id
      → (handle_repair_frame m r).1 ≡ ok (x ∷ xs)
      → Gives m id (repairs r)
  protects :
      (f : SourceSymbolFrame) (x : RepairFrame) (xs : List RepairFrame)
      → sid_to_block_id m f.ssid ≡ ok id
      → (add_source_symbol_frame m f).1 ≡ ok (x ∷ xs)
      → Gives m id (sends f)

Gives-processed : (m : Manager) (id : ℕ) (o : Op) → Gives m id o → entry (apply o m) id ≡ processed
unfolding handle_repair_frame add_source_symbol_frame
Gives-processed m id o (recovers r x xs same h) =
    subst (λ i. entry (handle_repair_frame m r).0 i ≡ processed) same
      (on_entry-Closes r.metadata.block_id x xs (with_block m r.metadata.block_id)
        (repair_block (with_block m r.metadata.block_id) r)
        (λ b. repair_block-Closes (with_block m r.metadata.block_id) r b x xs) h)
Gives-processed m id o (protects f x xs e h) =
    (let g : Closes id x xs (add_source_symbol_frame m f) =
        rw (e, add_source_symbol_frame)
          (on_entry-Closes id x xs (with_block m id) (add_to_block (with_block m id) id f)
            (λ b. add_to_block-Closes (with_block m id) id f b x xs)) in
      g h)

-- When a payload of a block that is not empty was recovered from a repair frame, or the block's repair symbols were made,
-- then after any further operations on this block and on others, every later symbol of the block changes
-- nothing and delivers nothing.
pub results_once :
    (m : Manager) (id : ℕ) (o : Op) (xs : List Op) → Gives m id o → Ignores (run xs (apply o m)) id
results_once m id o xs g =
    processed-Ignores (run xs (apply o m)) id
      (run_processed xs (apply o m) id (Gives-processed m id o g))
