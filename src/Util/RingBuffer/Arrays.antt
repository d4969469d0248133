-- ===== src/Util/RingBuffer/Arrays.antt =====
-- Lists that are cut and written at an index.
use x_fec.Base.{
  ℕ, zero, suc, ◌-◌, ◌≤◌, ◌<◌, ◌≡◌, refl, ap, List, [], ◌∷◌, ◌++◌, arith, length, take, drop, set,
  get_or,
}

module _ {ℓ} {A : Type ℓ} where
  pub length-drop : (n : ℕ) (xs : List A) → length (drop n xs) ≡ length xs - n
  length-drop zero xs = omega arith
  length-drop (suc n) [] = omega arith
  length-drop (suc n) (x ∷ xs) = omega (arith, length-drop n xs)

  -- A write behind the part that is taken, and one in front of the part that is left.
  pub take-set_ge : (n i : ℕ) (v : A) (xs : List A) → n ≤ i → take n (set xs i v) ≡ take n xs
  take-set_ge zero i v xs h = refl
  take-set_ge (suc n) i v [] h = refl
  take-set_ge (suc n) zero v (x ∷ xs) h = absurd (omega arith)
  take-set_ge (suc n) (suc i) v (x ∷ xs) h = ap (λ l. x ∷ l) (take-set_ge n i v xs (omega arith))

  pub drop-set_lt : (n i : ℕ) (v : A) (xs : List A) → i < n → drop n (set xs i v) ≡ drop n xs
  drop-set_lt zero i v xs h = absurd (omega arith)
  drop-set_lt (suc n) i v [] h = refl
  drop-set_lt (suc n) zero v (x ∷ xs) h = refl
  drop-set_lt (suc n) (suc i) v (x ∷ xs) h = drop-set_lt n i v xs (omega arith)

  pub take-set_lt :
      (n i : ℕ) (v : A) (xs : List A) → i < n → take n (set xs i v) ≡ set (take n xs) i v
  take-set_lt zero i v xs h = absurd (omega arith)
  take-set_lt (suc n) i v [] h = refl
  take-set_lt (suc n) zero v (x ∷ xs) h = refl
  take-set_lt (suc n) (suc i) v (x ∷ xs) h = ap (λ l. x ∷ l) (take-set_lt n i v xs (omega arith))

  pub get_or-take : (n i : ℕ) (z : A) (xs : List A) → i < n → get_or (take n xs) i z ≡ get_or xs i z
  get_or-take zero i z xs h = absurd (omega arith)
  get_or-take (suc n) i z [] h = refl
  get_or-take (suc n) zero z (x ∷ xs) h = refl
  get_or-take (suc n) (suc i) z (x ∷ xs) h = get_or-take n i z xs (omega arith)

  pub drop-append : (n : ℕ) (xs ys : List A) → n ≤ length xs → drop n (xs ++ ys) ≡ drop n xs ++ ys
  drop-append zero xs ys h = refl
  drop-append (suc n) [] ys h = absurd (omega arith)
  drop-append (suc n) (x ∷ xs) ys h = drop-append n xs ys (omega arith)

  pub drop_all : (n : ℕ) (xs : List A) → length xs ≤ n → drop n xs ≡ []
  drop_all zero [] h = refl
  drop_all zero (x ∷ xs) h = absurd (omega arith)
  drop_all (suc n) [] h = refl
  drop_all (suc n) (x ∷ xs) h = drop_all n xs (omega arith)

  -- The part up to a write and with it.
  pub take-set_end :
      (i : ℕ) (v : A) (xs : List A)
      → i < length xs
      → take (suc i) (set xs i v) ≡ take i xs ++ v ∷ []
  take-set_end i v [] h = absurd (omega arith)
  take-set_end zero v (x ∷ xs) h = refl
  take-set_end (suc i) v (x ∷ xs) h = ap (λ l. x ∷ l) (take-set_end i v xs (omega arith))

  pub take_all : (xs : List A) → take (length xs) xs ≡ xs
  take_all [] = refl
  take_all (x ∷ xs) = ap (λ l. x ∷ l) (take_all xs)

  pub drop_get :
      (i : ℕ) (z : A) (xs : List A) → i < length xs → drop i xs ≡ get_or xs i z ∷ drop (suc i) xs
  drop_get i z [] h = absurd (omega arith)
  drop_get zero z (x ∷ xs) h = refl
  drop_get (suc i) z (x ∷ xs) h = drop_get i z xs (omega arith)
