-- ===== src/Fec/Xor/Restore.antt =====
-- internal/fec/xor.go: recoverSymbolPayloads and the block that it leaves.
use x_fec.Base.{
  ℕ, zero, suc, ◌+◌, ◌-◌, ◌^◌, ◌≤◌, ◌<◌, List, [], ◌∷◌, ok, ◌>>=◌, ◌==◌, if◌then◌else◌, length, ◌≡◌,
  sym, ap, ◌∙◌, arith, All, Bool-cases, inl, inr, ◌⊎◌, replicate, subst, ==_iff, drop, true, false,
}
use x_fec.Base.Int.{pos}
use x_fec.Base.Dict.{Dict, values, has, insert}
use x_fec.Base.Keys.{IsWithin, All-insert, NoDup-insert, has-insert, NoDup}
use x_fec.Wire.{Slice}
use x_fec.Wire.Symbols.{RepairFrame, max_packet_buffer_size}
use x_fec.Fec.Block.{Block, is_complete, is_recoverable}
use x_fec.Fec.Block.Laws.{IsValid, is_complete-HasAll}
use x_fec.Fec.Xor.{
  xor_sources, xor_repairs, repair_symbols, recovered_symbol, recovered_payload, recovered,
  recover_symbol_payloads, finish, fill, max_fec_packet_buffer_size,
}
use x_fec.Fec.Xor.Sum.{length-perm}
use x_fec.Fec.Xor.Recovery.{fits_values, length-values, repair_symbols_lem, buffer_lem, cut_lem}
use mathlib.Core.List.{Perm, Permᴰ}
use mathlib.Core.Logic.{∥∥₁_elim}
use native.Mathlib.Bridge.{le_prop}

-- What a map of source symbols satisfies in a block of the range from `lo` to `hi`.
abbrev IsFilled : ℕ → ℕ → ℕ → Dict Slice → Type 0
IsFilled lo hi n m = All (λ e. IsWithin lo hi e.0) m × NoDup m × All (λ e. length e.1.bytes ≤ n) m

insert_absent : Dict Slice → ℕ → Slice → Dict Slice
insert_absent m ssid p = if has ssid m then m else insert ssid p m

insert_absent_lem :
    (lo hi n ssid : ℕ) (p : Slice) (m : Dict Slice)
    → IsWithin lo hi ssid
    → length p.bytes ≤ n
    → IsFilled lo hi n m
    → IsFilled lo hi n (if has ssid m then m else insert ssid p m)
insert_absent_lem lo hi n ssid p m w fits (keys, distinct, sizes) = elim (Bool-cases (has ssid m)) [
  | inl old ↦ rw old (keys, distinct, sizes)
  | inr new ↦ rw new (
    All-insert (λ e. IsWithin lo hi e.0) ssid p m keys w,
    NoDup-insert ssid p m distinct,
    All-insert (λ e. length e.1.bytes ≤ n) ssid p m sizes fits,
  )
]

has-insert_absent :
    (ssid j : ℕ) (p : Slice) (m : Dict Slice)
    → has j (if has ssid m then m else insert ssid p m) ≡ (if ssid == j then true else has j m)
has-insert_absent ssid j p m = ground (arith, has-insert ssid j p m)

fill-IsFilled :
    (lo hi n k ssid : ℕ) (p : Slice) (m : Dict Slice)
    → lo ≤ ssid
    → ssid + k ≤ hi + 1
    → length p.bytes ≤ n
    → IsFilled lo hi n m
    → IsFilled lo hi n (fill k ssid p m)
unfolding fill
fill-IsFilled lo hi n zero ssid p m below above fits h = h
fill-IsFilled lo hi n (suc k) ssid p m below above fits h =
    fill-IsFilled lo hi n k (ssid + 1) p _ (omega arith) (omega arith) fits
      (insert_absent_lem lo hi n ssid p m (omega arith) fits h)

-- The loop keeps the keys that are there, and adds those that it passes.
has-fill :
    (k ssid j : ℕ) (p : Slice) (m : Dict Slice)
    → (has j m ≡ true) ⊎ ((ssid ≤ j) × (j < ssid + k))
    → has j (fill k ssid p m) ≡ true
unfolding fill
has-fill zero ssid j p m (inl h) = h
has-fill zero ssid j p m (inr h) = absurd (omega arith)
has-fill (suc k) ssid j p m h =
    has-fill k (ssid + 1) j p (if has ssid m then m else insert ssid p m)
      (ground (arith, has-insert_absent ssid j p m))

-- Once a payload is recovered the block is complete: every identifier of its range has a payload.
finish_lem :
    (b : Block) (n : ℕ) (p : Slice)
    → IsValid b n
    → b.largest_ssid + 1 ≡ b.smallest_ssid + b.tot_num_source_symbols
    → b.largest_ssid < 2 ^ 64 - 1
    → length p.bytes ≤ n
    → ((finish b p).1 ≡ ok p.bytes) × (is_complete (finish b p).0 ≡ true)
unfolding finish
finish_lem b n p v range small fits =
    let rounds = b.largest_ssid + 1 - b.smallest_ssid in
    let m = fill rounds b.smallest_ssid p b.ssid_to_source_payload in
    let (keys, distinct, sizes) =
      fill-IsFilled b.smallest_ssid b.largest_ssid n rounds b.smallest_ssid p
        b.ssid_to_source_payload (omega arith) (omega arith) fits (v.keys, v.distinct, v.fits) in
    let b' : Block = record b { ssid_to_source_payload = m } in
    let v' : IsValid b' n = record {
      keys = keys;
      distinct = distinct;
      fits = sizes;
      biggest = v.biggest;
    } in
    let whole : is_complete b' ≡ true = (is_complete-HasAll b' n v' range).1 (λ j w.
      has-fill rounds b.smallest_ssid j p b.ssid_to_source_payload (inr (w.0, omega arith))) in
    ground (arith, whole)

fits_permᴰ :
    {ps qs : List Slice} (n : ℕ)
    → Permᴰ ps qs
    → All (λ p. length p.bytes ≤ n) ps
    → All (λ p. length p.bytes ≤ n) qs
fits_permᴰ n Permᴰ.nil h = tt
fits_permᴰ n (Permᴰ.cons e q) (h, hs) =
    (subst (λ (x : Slice). length x.bytes ≤ n) e h, fits_permᴰ n q hs)
fits_permᴰ n (Permᴰ.swap e f) (h, (k, hs)) = (
  subst (λ (x : Slice). length x.bytes ≤ n) f k,
  (subst (λ (x : Slice). length x.bytes ≤ n) e h, hs),
)
fits_permᴰ n (Permᴰ.trans q r) h = fits_permᴰ n r (fits_permᴰ n q h)

fits_perm :
    (n : ℕ) (p : Slice) (got all : List Slice)
    → Perm all (p ∷ got)
    → All (λ q. length q.bytes ≤ n) all
    → length p.bytes ≤ n
fits_perm n p got all perm h = ∥∥₁_elim perm le_prop (λ q. (fits_permᴰ n q h).0)

recovered_symbol_lem :
    (r : Block) (j n : ℕ) (out : List ℕ)
    → r.pid_to_repair_payload ≡ (j, out) ∷ []
    → r.biggest_source_symbol_len_so_far ≡ pos n
    → recovered_symbol r ≡ (
        xor_repairs (replicate max_packet_buffer_size 0) (out ∷ []) >>= λ b.
        xor_sources b (values r.ssid_to_source_payload) (pos n))
unfolding recovered_symbol
recovered_symbol_lem r j n out e f = rw (e, f)

-- The way through `recoverSymbolPayloads` that recovers something.
recover_lem :
    (r : Block) (n : ℕ) (buf : List ℕ) (p : Slice)
    → is_recoverable r ≡ true
    → is_complete r ≡ false
    → recovered_symbol r ≡ ok buf
    → r.biggest_source_symbol_len_so_far ≡ pos n
    → recovered_payload buf (pos n) ≡ ok p
    → recover_symbol_payloads r ≡ finish r p
unfolding recover_symbol_payloads
recover_lem r n buf p h k e f g = rw (h, k, got)
  where
    got : recovered r ≡ ok p
    got = unfold recovered in rw e (rw f g)

one_missing :
    (s r : Block) (p : Slice)
    → is_complete s ≡ true
    → r.tot_num_source_symbols ≡ s.tot_num_source_symbols
    → Perm (values s.ssid_to_source_payload) (p ∷ values r.ssid_to_source_payload)
    → length r.ssid_to_source_payload + 1 ≡ r.tot_num_source_symbols
unfolding is_complete
one_missing s r p full counts perm = omega (
  arith,
  (==_iff _ _).0 full,
  length-perm perm,
  length-values s.ssid_to_source_payload,
  length-values r.ssid_to_source_payload,
)

one_missing_incomplete :
    (r : Block)
    → length r.ssid_to_source_payload + 1 ≡ r.tot_num_source_symbols
    → is_complete r ≡ false
unfolding is_complete
one_missing_incomplete r h = ground arith

one_missing_recoverable :
    (r : Block) (j : ℕ) (out : List ℕ)
    → length r.ssid_to_source_payload + 1 ≡ r.tot_num_source_symbols
    → r.pid_to_repair_payload ≡ (j, out) ∷ []
    → is_recoverable r ≡ true
unfolding is_recoverable
one_missing_recoverable r j out h e = rw e (ground arith)

-- A sender's complete block made one repair symbol. A receiver's block of the same identifiers has
-- that repair symbol, and of the source symbols all but one, in any order. Then
-- `recoverSymbolPayloads` returns the payload of the lost symbol, and the block becomes complete.
pub recover-repair_symbols :
    (s r : Block) (frame : RepairFrame) (p : Slice) (n j : ℕ)
    → IsValid s n
    → n ≤ max_fec_packet_buffer_size
    → s.tot_num_repair_symbols ≡ 1
    → is_complete s ≡ true
    → repair_symbols s ≡ ok (frame ∷ [])
    → IsValid r n
    → r.tot_num_source_symbols ≡ s.tot_num_source_symbols
    → r.largest_ssid + 1 ≡ r.smallest_ssid + r.tot_num_source_symbols
    → r.largest_ssid < 2 ^ 64 - 1
    → r.pid_to_repair_payload ≡ (j, frame.payload) ∷ []
    → Perm (values s.ssid_to_source_payload) (p ∷ values r.ssid_to_source_payload)
    → ((recover_symbol_payloads r).1 ≡ ok p.bytes)
      × (is_complete (recover_symbol_payloads r).0 ≡ true)
recover-repair_symbols s r frame p n j vs room one full made vr counts range small repairs perm =
    let (out, made', size, sums) = repair_symbols_lem s n vs full one room in
    let same : out ≡ frame.payload = ground (arith, made, made') in
    let got = values r.ssid_to_source_payload in
    let fits = fits_perm n p got (values s.ssid_to_source_payload) perm (fits_values n _ vs.fits) in
    let (buf, built, blen, shares) =
      buffer_lem out p got (values s.ssid_to_source_payload) n room size sums
        (fits_values n _ vr.fits) perm in
    let sent : r.pid_to_repair_payload ≡ (j, out) ∷ [] =
      repairs ∙ ap (λ x. (j, x) ∷ []) (sym same) in
    let missing : length r.ssid_to_source_payload + 1 ≡ r.tot_num_source_symbols =
      one_missing s r p full counts perm in
    let cut : Slice = record { bytes = p.bytes; spare = drop (length p.bytes) buf } in
    rw
      (recover_lem r n buf cut (one_missing_recoverable r j out missing sent)
        (one_missing_incomplete r missing) (recovered_symbol_lem r j n out sent vr.biggest ∙ built)
        vr.biggest (cut_lem buf p n room blen fits shares))
      (finish_lem r n cut vr range small fits)
