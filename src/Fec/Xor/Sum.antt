-- ===== src/Fec/Xor/Sum.antt =====
-- The buffers of the scheme, index by index: what each payload adds, and the sum of a set of them.
use x_fec.Base.{
  ℕ, zero, suc, ◌+◌, ◌/◌, ◌%◌, ◌^◌, ◌≤◌, ◌<◌, List, [], ◌∷◌, ok, ◌==◌, if◌then◌else◌, length,
  get_or, set, bit_xor, ◌≡◌, refl, sym, ap, ap₂, ◌∙◌, arith, All, length-set, replicate, take,
}
use x_fec.Base.Xor.{xor_assoc, xor-zero, zero-bit_xor, xor_left_comm}
use x_fec.Base.Int.{pos}
use x_fec.Varint.{u8}
use x_fec.Wire.{Slice}
use x_fec.Fec.Xor.{xor_repair, xor_at, xor, xor_sources}
use mathlib.Core.List.{Perm, Permᴰ}
use mathlib.Core.Logic.{∥∥₁_elim}
use native.Mathlib.Nat.{ℕ_set}

abbrev pub byte_at : List ℕ → ℕ → ℕ
byte_at buf i = get_or buf i 0

-- `out` is `buf` with `c` added at every index.
abbrev pub Adds : List ℕ → List ℕ → (ℕ → ℕ) → Type 0
Adds buf out c =
    (length out ≡ length buf)
    × ((i : ℕ) → i < length buf → byte_at out i ≡ bit_xor (byte_at buf i) (c i))

pub xor_repair_lem :
    (buf payload : List ℕ)
    → length payload ≤ length buf
    → (out : List ℕ) × (xor_repair buf payload ≡ ok out) × Adds buf out (byte_at payload)
unfolding xor_repair
xor_repair_lem buf [] h = (buf, refl, (refl, λ i lt. sym (xor-zero (byte_at buf i))))
xor_repair_lem [] (p ∷ payload) h = absurd (omega arith)
xor_repair_lem (x ∷ buf) (p ∷ payload) h =
    let (out, e, added) = xor_repair_lem buf payload (omega arith) in
    (
      bit_xor x p ∷ out,
      rw e,
      (ap suc added.0, elim [ zero ↦ λ lt. refl | suc i ↦ λ lt. added.1 i (omega arith) ]),
    )

get_or-set :
    (xs : List ℕ) (i j v : ℕ)
    → i < length xs
    → byte_at (set xs i v) j ≡ (if j == i then v else byte_at xs j)
get_or-set [] i j v h = absurd (omega arith)
get_or-set (x ∷ xs) zero zero v h = refl
get_or-set (x ∷ xs) zero (suc j) v h = ground arith
get_or-set (x ∷ xs) (suc i) zero v h = ground arith
get_or-set (x ∷ xs) (suc i) (suc j) v h = ground (arith, get_or-set xs i j v (omega arith))

abbrev spike : ℕ → ℕ → ℕ → ℕ
spike k v i = if i == k then v else 0

xor_at_lem :
    (buf : List ℕ) (k v : ℕ)
    → k < length buf
    → (out : List ℕ) × (xor_at buf (pos k) v ≡ ok out) × Adds buf out (spike k v)
unfolding xor_at
xor_at_lem buf k v h = (
  set buf k (bit_xor (byte_at buf k) v),
  ground arith,
  (
    length-set buf k _,
    λ i lt.
        ground (arith, get_or-set buf k i (bit_xor (byte_at buf k) v), xor-zero (byte_at buf i)),
  ),
)

-- What `xor` adds for a payload: its bytes, and its length in two bytes behind the biggest one.
abbrev pub share : ℕ → List ℕ → ℕ → ℕ
share n p i =
    bit_xor (bit_xor (byte_at p i) (spike n (u8 (length p % 2 ^ 16 / 2 ^ 8)) i))
      (spike (n + 1) (u8 (length p % 2 ^ 16)) i)

Adds-trans :
    (a b c : List ℕ) (f g : ℕ → ℕ) → Adds a b f → Adds b c g → Adds a c (λ i. bit_xor (f i) (g i))
Adds-trans a b c f g (s, h) (t, k) = (
  t ∙ s,
  λ i lt. k i (rw s lt) ∙ ap (λ x. bit_xor x (g i)) (h i lt) ∙ xor_assoc (byte_at a i) (f i) (g i),
)

xor_lem :
    (buf payload : List ℕ) (n : ℕ)
    → length payload ≤ length buf
    → n + 2 ≤ length buf
    → (out : List ℕ) × (xor buf payload (pos n) ≡ ok out) × Adds buf out (share n payload)
unfolding xor
xor_lem buf payload n fits room =
    let (b1, e1, a1) = xor_repair_lem buf payload fits in
    let (b2, e2, a2) =
      xor_at_lem b1 n (u8 (length payload % 2 ^ 16 / 2 ^ 8)) (omega (arith, a1.0)) in
    let (b3, e3, a3) =
      xor_at_lem b2 (n + 1) (u8 (length payload % 2 ^ 16)) (omega (arith, a1.0, a2.0)) in
    (b3, simp (e1, e2, e3), Adds-trans buf b2 b3 _ _ (Adds-trans buf b1 b2 _ _ a1 a2) a3)

-- The sum of the shares.
abbrev pub sum_at : ℕ → List Slice → ℕ → ℕ
sum_at n [] i = 0
sum_at n (p ∷ ps) i = bit_xor (share n p.bytes i) (sum_at n ps i)

pub xor_sources_lem :
    (ps : List Slice) (buf : List ℕ) (n : ℕ)
    → All (λ p. length p.bytes ≤ n) ps
    → n + 2 ≤ length buf
    → (out : List ℕ) × (xor_sources buf ps (pos n) ≡ ok out) × Adds buf out (sum_at n ps)
unfolding xor_sources
xor_sources_lem [] buf n h room = (buf, refl, (refl, λ i lt. sym (xor-zero (byte_at buf i))))
xor_sources_lem (p ∷ ps) buf n (h, hs) room =
    let (b1, e1, a1) = xor_lem buf p.bytes n (omega arith) room in
    let (b2, e2, a2) = xor_sources_lem ps b1 n hs (omega (arith, a1.0)) in
    (b2, rw e1 e2, Adds-trans buf b1 b2 _ _ a1 a2)

-- The order of the payloads does not matter.
sum_at-permᴰ : {ps qs : List Slice} (n : ℕ) → Permᴰ ps qs → (i : ℕ) → sum_at n ps i ≡ sum_at n qs i
sum_at-permᴰ n Permᴰ.nil i = refl
sum_at-permᴰ n (Permᴰ.cons {a = a} {b = b} e p) i =
    ap₂ bit_xor (ap (λ s. share n s.bytes i) e) (sum_at-permᴰ n p i)
sum_at-permᴰ n (Permᴰ.swap {a = a} {b = b} {l = l} e f) i =
    xor_left_comm (share n a.bytes i) (share n b.bytes i) (sum_at n l i)
    ∙ ap₂ (λ s t. bit_xor (share n s.bytes i) (bit_xor (share n t.bytes i) (sum_at n l i))) f e
sum_at-permᴰ n (Permᴰ.trans p q) i = sum_at-permᴰ n p i ∙ sum_at-permᴰ n q i

pub sum_at-perm :
    {ps qs : List Slice} (n : ℕ) → Perm ps qs → (i : ℕ) → sum_at n ps i ≡ sum_at n qs i
sum_at-perm n p i = ∥∥₁_elim p (ℕ_set _ _) (λ q. sum_at-permᴰ n q i)

length-permᴰ : {ps qs : List Slice} → Permᴰ ps qs → length ps ≡ length qs
length-permᴰ Permᴰ.nil = refl
length-permᴰ (Permᴰ.cons e p) = ap suc (length-permᴰ p)
length-permᴰ (Permᴰ.swap e f) = refl
length-permᴰ (Permᴰ.trans p q) = length-permᴰ p ∙ length-permᴰ q

pub length-perm : {ps qs : List Slice} → Perm ps qs → length ps ≡ length qs
length-perm p = ∥∥₁_elim p (ℕ_set _ _) length-permᴰ

pub byte_at-replicate : (n i : ℕ) → byte_at (replicate n 0) i ≡ 0
byte_at-replicate zero i = refl
byte_at-replicate (suc n) zero = refl
byte_at-replicate (suc n) (suc i) = byte_at-replicate n i

pub byte_at_beyond : (p : List ℕ) (i : ℕ) → length p ≤ i → byte_at p i ≡ 0
byte_at_beyond [] i h = refl
byte_at_beyond (x ∷ p) zero h = absurd (omega arith)
byte_at_beyond (x ∷ p) (suc i) h = byte_at_beyond p i (omega arith)

-- A buffer that begins with the bytes of `p` is cut to `p`.
pub take_ext :
    (p buf : List ℕ)
    → length p ≤ length buf
    → ((i : ℕ) → i < length p → byte_at buf i ≡ byte_at p i)
    → take (length p) buf ≡ p
take_ext [] buf h e = refl
take_ext (x ∷ p) [] h e = absurd (omega arith)
take_ext (x ∷ p) (y ∷ buf) h e =
    ap₂ ◌∷◌ (e 0 (omega arith)) (take_ext p buf (omega arith) (λ i lt. e (suc i) (omega arith)))

-- The share of a payload: its own bytes, then its length behind the biggest one.
pub share_bytes : (n : ℕ) (p : List ℕ) (i : ℕ) → i < n → share n p i ≡ byte_at p i
share_bytes n p i h = ground (arith, xor-zero (byte_at p i))

pub share_high : (n : ℕ) (p : List ℕ) → length p ≤ n → share n p n ≡ u8 (length p % 2 ^ 16 / 2 ^ 8)
share_high n p h = ground (
  arith,
  byte_at_beyond p n h,
  zero-bit_xor (u8 (length p % 2 ^ 16 / 2 ^ 8)),
  xor-zero (u8 (length p % 2 ^ 16 / 2 ^ 8)),
)

pub share_low : (n : ℕ) (p : List ℕ) → length p ≤ n → share n p (n + 1) ≡ u8 (length p % 2 ^ 16)
share_low n p h = ground (
  arith,
  byte_at_beyond p (n + 1) (omega arith),
  zero-bit_xor 0,
  zero-bit_xor (u8 (length p % 2 ^ 16)),
)
