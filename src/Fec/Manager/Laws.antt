-- ===== src/Fec/Manager/Laws.antt =====
-- internal/fec/manager.go: the entries of the map of blocks, and the invariant of the manager.
use x_fec.Base.{
  ℕ, [], Bool, true, false, ok, err, ◌≡◌, ◌≢◌, refl, arith, Option, none, some, ◌==◌, ◌∙◌, sym,
  subst, Result, Bool-cases, ==_iff, ◌⊎◌, Result-cases, inl, inr,
}
use x_fec.Base.Dict.{has, lookup-insert}
use x_fec.Fec.Errors.{Error}
use x_fec.Fec.Block.{
  Block, new_block, add_source_symbol, add_repair_symbol, is_complete, is_recoverable,
}
use x_fec.Wire.Symbols.{SourceSymbolFrame, RepairFrame}
use x_fec.Fec.Manager.{
  Manager, Entry, collecting, processed, nil, entry, with_block, put_status, sid_to_block_id,
  settled, on_entry, add_to_block, repair_block, receive_source, add_source_symbol_frame,
  handle_repair_frame, handle_source_symbol_frame,
}

module _ (m : Manager) (id : ℕ) where
  pub entry-put_status : (b : Block) → entry (put_status m id (some b) false) id ≡ collecting b
  unfolding entry
  entry-put_status b = ground (
    arith,
    lookup-insert id id (record { block = some b; is_processed = false }) m.block_statuses,
  )

  pub entry-put_status_processed : entry (put_status m id none true) id ≡ processed
  unfolding entry
  entry-put_status_processed =
      ground
        (arith, lookup-insert id id (record { block = none; is_processed = true }) m.block_statuses)

  pub with_block-put_status :
      (b : Option Block) (d : Bool) → with_block (put_status m id b d) id ≡ put_status m id b d
  unfolding with_block
  with_block-put_status b d =
      ground (arith, lookup-insert id id (record { block = b; is_processed = d }) m.block_statuses)

  pub with_block_fresh :
      has id m.block_statuses ≡ false
      → with_block m id
        ≡ put_status m id
            (some (new_block id m.num_tot_source_symbols m.num_tot_repair_symbols))
            false
  unfolding with_block
  with_block_fresh h = rw h

-- Every block that is not processed is there, so the manager never meets a nil block.
abbrev pub IsWellFormed : Manager → Type 0
IsWellFormed m = (id : ℕ) → has id m.block_statuses ≡ true → entry m id ≢ nil

pub entry_elsewhere :
    (m : Manager) (id j : ℕ) (b : Option Block) (d : Bool)
    → (id == j) ≡ false
    → (entry (put_status m id b d) j ≡ entry m j)
      × (has j (put_status m id b d).block_statuses ≡ has j m.block_statuses)
unfolding entry
entry_elsewhere m id j b d ne =
    let e = lookup-insert id j (record { block = b; is_processed = d }) m.block_statuses in
    (ground (arith, e), ground (arith, e))

put_collecting-IsWellFormed :
    (m : Manager) (id : ℕ) (b : Block)
    → IsWellFormed m
    → IsWellFormed (put_status m id (some b) false)
put_collecting-IsWellFormed m id b w j h = elim (Bool-cases (id == j)) [
  | inl e ↦
      subst (λ i. entry (put_status m id (some b) false) i ≢ nil) ((==_iff id j).0 e)
        (rw (entry-put_status m id b) (λ p. cc))
  | inr ne ↦
      let (same, there) = entry_elsewhere m id j (some b) false ne in rw same (w j (sym there ∙ h))
]

put_processed-IsWellFormed :
    (m : Manager) (id : ℕ) → IsWellFormed m → IsWellFormed (put_status m id none true)
put_processed-IsWellFormed m id w j h = elim (Bool-cases (id == j)) [
  | inl e ↦
      subst (λ i. entry (put_status m id none true) i ≢ nil) ((==_iff id j).0 e)
        (rw (entry-put_status_processed m id) (λ p. cc))
  | inr ne ↦
      let (same, there) = entry_elsewhere m id j none true ne in rw same (w j (sym there ∙ h))
]

-- After `with_block` the entry is there, and it is no nil block.
with_block-IsWellFormed :
    (m : Manager) (id : ℕ)
    → IsWellFormed m
    → IsWellFormed (with_block m id) × (entry (with_block m id) id ≢ nil)
with_block-IsWellFormed m id w = elim (Bool-cases (has id m.block_statuses)) [
  | inl old ↦ let same : with_block m id ≡ m = unfold with_block in rw old in rw same (w, w id old)
  | inr new ↦
      rw (with_block_fresh m id new)
        (put_collecting-IsWellFormed m id _ w, rw (entry-put_status m id _) (λ p. cc))
]

settled-IsWellFormed :
    {A : Type 0} (m : Manager) (id : ℕ) (r : Block × Result Error A)
    → IsWellFormed m
    → IsWellFormed (settled m id r).0
settled-IsWellFormed m id (b, ok a) w = put_processed-IsWellFormed m id w
settled-IsWellFormed m id (b, err e) w = put_collecting-IsWellFormed m id b w

add_to_block-IsWellFormed :
    (m : Manager) (id : ℕ) (f : SourceSymbolFrame) (b : Block)
    → IsWellFormed m
    → IsWellFormed (add_to_block m id f b).0
unfolding add_to_block
add_to_block-IsWellFormed m id f b w = elim (Result-cases (add_source_symbol b f)) [
  | inr (x, e) ↦ rw (e, add_to_block) w
  | inl (b', e) ↦
      rw (e, add_to_block)
        (elim (Bool-cases (is_complete b')) [
          | inl full ↦ rw full (settled-IsWellFormed m id (m.scheme.repair_symbols b') w)
          | inr more ↦ rw more (put_collecting-IsWellFormed m id b' w)
        ])
]

repair_block-IsWellFormed :
    (m : Manager) (f : RepairFrame) (b : Block)
    → IsWellFormed m
    → IsWellFormed (repair_block m f b).0
unfolding repair_block
repair_block-IsWellFormed m f b w = elim (Result-cases (add_repair_symbol b f)) [
  | inr (x, e) ↦ rw (e, repair_block) w
  | inl (b', e) ↦
      rw (e, repair_block)
        (elim (Bool-cases (is_recoverable b')) [
          | inl full ↦
              rw full
                (settled-IsWellFormed m f.metadata.block_id (m.scheme.recover_symbol_payloads b') w)
          | inr more ↦ rw more (put_collecting-IsWellFormed m f.metadata.block_id b' w)
        ])
]

receive_source-IsWellFormed :
    (m : Manager) (id : ℕ) (f : SourceSymbolFrame) (b : Block)
    → IsWellFormed m
    → IsWellFormed (receive_source m id f b).0
unfolding receive_source
receive_source-IsWellFormed m id f b w = elim (Result-cases (add_source_symbol b f)) [
  | inr (x, e) ↦ rw (e, receive_source) w
  | inl (b', e) ↦
      rw (e, receive_source)
        (elim (Bool-cases (is_complete b')) [
          | inl full ↦ rw full (put_processed-IsWellFormed m id w)
          | inr more ↦ rw more (put_collecting-IsWellFormed m id b' w)
        ])
]

pub Entry-cases : (e : Entry) → (e ≡ processed) ⊎ ((e ≡ nil) ⊎ ((b : Block) × (e ≡ collecting b)))
Entry-cases processed = inl refl
Entry-cases nil = inr (inl refl)
Entry-cases (collecting b) = inr (inr (b, refl))

on_entry-IsWellFormed :
    {A : Type 0} (m : Manager) (id : ℕ) (z : A) (k : Block → Manager × Result Error A)
    → IsWellFormed m
    → ((b : Block) → IsWellFormed (k b).0)
    → IsWellFormed (on_entry m id z k).0
unfolding on_entry
on_entry-IsWellFormed m id z k w keeps = elim (Entry-cases (entry m id)) [
  | inl e ↦ rw (e, on_entry) w
  | inr (inl e) ↦ rw (e, on_entry) w
  | inr (inr (b, e)) ↦ rw (e, on_entry) (keeps b)
]

-- The sender's operation and both of the receiver's keep the invariant that no entry of the map is a
-- nil block that is not processed.
pub operations-IsWellFormed :
    (m : Manager) (f : SourceSymbolFrame) (r : RepairFrame)
    → IsWellFormed m
    → IsWellFormed (add_source_symbol_frame m f).0
      × IsWellFormed (handle_repair_frame m r).0
      × IsWellFormed (handle_source_symbol_frame m f).0
unfolding add_source_symbol_frame handle_repair_frame handle_source_symbol_frame
operations-IsWellFormed m f r w = (
  elim (Result-cases (sid_to_block_id m f.ssid)) [
    | inr (x, e) ↦ rw (e, add_source_symbol_frame) w
    | inl (id, e) ↦
        let w' = (with_block-IsWellFormed m id w).0 in
        rw (e, add_source_symbol_frame)
          (on_entry-IsWellFormed (with_block m id) id [] _ w'
            (λ b. add_to_block-IsWellFormed (with_block m id) id f b w'))
  ],
  let w' = (with_block-IsWellFormed m r.metadata.block_id w).0 in
      on_entry-IsWellFormed (with_block m r.metadata.block_id) r.metadata.block_id [] _ w'
        (λ b. repair_block-IsWellFormed (with_block m r.metadata.block_id) r b w'),
  elim (Result-cases (sid_to_block_id m f.ssid)) [
    | inr (x, e) ↦ rw (e, handle_source_symbol_frame) w
    | inl (id, e) ↦
        let w' = (with_block-IsWellFormed m id w).0 in
        rw (e, handle_source_symbol_frame)
          (on_entry-IsWellFormed (with_block m id) id [] _ w'
            (λ b. receive_source-IsWellFormed (with_block m id) id f b w'))
  ],
)
