-- ===== src/Prelude/Lists.antt =====
-- Arrays and byte ranges as lists measured and indexed by native numbers.
use Prim.Native.Nat.{ℕ, zero, suc, ◌+◌, ◌-◌, ◌≤◌, ◌<◌, min}
use mathlib.Core.Path.{◌≡◌, refl, ap}
use mathlib.Core.List.{List, [], ◌∷◌, ◌++◌}
use mathlib.Core.Option.{Option, none, some}
use native.Mathlib.Omega.{arith}

module _ {ℓ} {A : Type ℓ} where
  abbrev pub length : List A → ℕ
  length [] = 0
  length (x ∷ xs) = suc (length xs)

  abbrev pub get_elem? : List A → ℕ → Option A
  get_elem? [] i = none
  get_elem? (x ∷ xs) zero = some x
  get_elem? (x ∷ xs) (suc i) = get_elem? xs i

  abbrev pub get_or : List A → ℕ → A → A
  get_or [] i d = d
  get_or (x ∷ xs) zero d = x
  get_or (x ∷ xs) (suc i) d = get_or xs i d

  -- A write out of bounds changes nothing.
  abbrev pub set : List A → ℕ → A → List A
  set [] i v = []
  set (x ∷ xs) zero v = v ∷ xs
  set (x ∷ xs) (suc i) v = x ∷ set xs i v

  abbrev pub take : ℕ → List A → List A
  take zero xs = []
  take (suc n) [] = []
  take (suc n) (x ∷ xs) = x ∷ take n xs

  abbrev pub drop : ℕ → List A → List A
  drop zero xs = xs
  drop (suc n) [] = []
  drop (suc n) (x ∷ xs) = drop n xs

  abbrev pub replicate : ℕ → A → List A
  replicate zero a = []
  replicate (suc n) a = a ∷ replicate n a

module _ {ℓ} {A : Type ℓ} where
  pub length-append : (xs ys : List A) → length (xs ++ ys) ≡ length xs + length ys
  length-append [] ys = omega arith
  length-append (x ∷ xs) ys = omega (arith, length-append xs ys)

  pub length-take : (n : ℕ) (xs : List A) → length (take n xs) ≡ min n (length xs)
  length-take zero xs = omega arith
  length-take (suc n) [] = omega arith
  length-take (suc n) (x ∷ xs) = omega (arith, length-take n xs)

  pub length-drop : (n : ℕ) (xs : List A) → length (drop n xs) ≡ length xs - n
  length-drop zero xs = omega arith
  length-drop (suc n) [] = omega arith
  length-drop (suc n) (x ∷ xs) = omega (arith, length-drop n xs)

  pub length-replicate : (n : ℕ) (a : A) → length (replicate n a) ≡ n
  length-replicate zero a = refl
  length-replicate (suc n) a = ap suc (length-replicate n a)

  pub length-set : (xs : List A) (i : ℕ) (v : A) → length (set xs i v) ≡ length xs
  length-set [] i v = refl
  length-set (x ∷ xs) zero v = refl
  length-set (x ∷ xs) (suc i) v = ap suc (length-set xs i v)

  pub take-append-drop : (n : ℕ) (xs : List A) → take n xs ++ drop n xs ≡ xs
  take-append-drop zero xs = refl
  take-append-drop (suc n) [] = refl
  take-append-drop (suc n) (x ∷ xs) = rw (take-append-drop n xs)

module _ {ℓ} {A : Type ℓ} where
  -- A prefix that lies inside the first part.
  pub take-append_le : (n : ℕ) (xs ys : List A) → n ≤ length xs → take n (xs ++ ys) ≡ take n xs
  take-append_le zero xs ys h = refl
  take-append_le (suc n) [] ys h = absurd (omega arith)
  take-append_le (suc n) (x ∷ xs) ys h = ap (◌∷◌ x) (take-append_le n xs ys (omega arith))

  pub take-append_ge :
      (n : ℕ) (xs ys : List A) → length xs ≤ n → take n (xs ++ ys) ≡ xs ++ take (n - length xs) ys
  take-append_ge n [] ys h = ap (λ k. take k ys) (omega arith)
  take-append_ge zero (x ∷ xs) ys h = absurd (omega arith)
  take-append_ge (suc n) (x ∷ xs) ys h =
      ap (◌∷◌ x)
        (rw (take-append_ge n xs ys (omega arith)) (ap (λ k. xs ++ take k ys) (omega arith)))

  pub drop-append_le :
      (n : ℕ) (xs ys : List A) → n ≤ length xs → drop n (xs ++ ys) ≡ drop n xs ++ ys
  drop-append_le zero xs ys h = refl
  drop-append_le (suc n) [] ys h = absurd (omega arith)
  drop-append_le (suc n) (x ∷ xs) ys h = drop-append_le n xs ys (omega arith)

  pub drop-append_ge :
      (n : ℕ) (xs ys : List A) → length xs ≤ n → drop n (xs ++ ys) ≡ drop (n - length xs) ys
  drop-append_ge n [] ys h = ap (λ k. drop k ys) (omega arith)
  drop-append_ge zero (x ∷ xs) ys h = absurd (omega arith)
  drop-append_ge (suc n) (x ∷ xs) ys h =
      rw (drop-append_ge n xs ys (omega arith)) (ap (λ k. drop k ys) (omega arith))

  pub take_all : (n : ℕ) (xs : List A) → length xs ≤ n → take n xs ≡ xs
  take_all zero [] h = refl
  take_all zero (x ∷ xs) h = absurd (omega arith)
  take_all (suc n) [] h = refl
  take_all (suc n) (x ∷ xs) h = ap (◌∷◌ x) (take_all n xs (omega arith))

  pub drop_all : (n : ℕ) (xs : List A) → length xs ≤ n → drop n xs ≡ []
  drop_all zero [] h = refl
  drop_all zero (x ∷ xs) h = absurd (omega arith)
  drop_all (suc n) [] h = refl
  drop_all (suc n) (x ∷ xs) h = drop_all n xs (omega arith)

  pub drop-drop : (m n : ℕ) (xs : List A) → drop m (drop n xs) ≡ drop (n + m) xs
  drop-drop m zero xs = ap (λ k. drop k xs) (omega arith)
  drop-drop zero (suc n) [] = rw (drop_all (suc n + 0) [] (omega arith))
  drop-drop (suc m) (suc n) [] = rw (drop_all (suc n + suc m) [] (omega arith))
  drop-drop m (suc n) (x ∷ xs) =
      let e : suc n + m ≡ suc (n + m) = omega arith in rw e (drop-drop m n xs)

  pub drop-take : (m n : ℕ) (xs : List A) → drop m (take n xs) ≡ take (n - m) (drop m xs)
  drop-take zero n xs = ap (λ k. take k xs) (omega arith)
  drop-take (suc m) zero xs = let e : 0 - suc m ≡ 0 = omega arith in rw e
  drop-take (suc m) (suc n) [] = rw (take_all (suc n - suc m) [] (omega arith))
  drop-take (suc m) (suc n) (x ∷ xs) =
      let e : suc n - suc m ≡ n - m = omega arith in rw e (drop-take m n xs)

  pub take-take : (m n : ℕ) (xs : List A) → m ≤ n → take m (take n xs) ≡ take m xs
  take-take zero n xs h = refl
  take-take (suc m) zero xs h = absurd (omega arith)
  take-take (suc m) (suc n) [] h = refl
  take-take (suc m) (suc n) (x ∷ xs) h = ap (◌∷◌ x) (take-take m n xs (omega arith))

  -- Two lists with equal prefixes of equal length have equal prefixes and rests.
  pub append_cancel :
      (xs ys us vs : List A) → length xs ≡ length us → xs ++ ys ≡ us ++ vs → (xs ≡ us) × (ys ≡ vs)
  append_cancel [] ys [] vs h e = (refl, e)
  append_cancel [] ys (u ∷ us) vs h e = absurd (omega arith)
  append_cancel (x ∷ xs) ys [] vs h e = absurd (omega arith)
  append_cancel (x ∷ xs) ys (u ∷ us) vs h e =
      let rest = append_cancel xs ys us vs (omega arith) (cc) in
      let head : x ≡ u = cc in (rw (head, rest.0), rest.1)

  -- Where two splits of one list meet, the longer first part goes on into the other second part.
  pub append_split :
      (xs ys us vs : List A)
      → length us ≤ length xs
      → xs ++ ys ≡ us ++ vs
      → (xs ≡ us ++ drop (length us) xs) × (drop (length us) xs ++ ys ≡ vs)
  append_split xs ys [] vs h e = (refl, e)
  append_split [] ys (u ∷ us) vs h e = absurd (omega arith)
  append_split (x ∷ xs) ys (u ∷ us) vs h e =
      let rest = append_split xs ys us vs (omega arith) (cc) in
      let head : x ≡ u = cc in (rw head (ap (◌∷◌ u) rest.0), rest.1)

  pub get_or-append :
      (xs ys : List A) (i : ℕ) (d : A) → i < length xs → get_or (xs ++ ys) i d ≡ get_or xs i d
  get_or-append [] ys i d h = absurd (omega arith)
  get_or-append (x ∷ xs) ys zero d h = refl
  get_or-append (x ∷ xs) ys (suc i) d h = get_or-append xs ys i d (omega arith)

module _ {ℓ} {A : Type ℓ} where
  pub take-set_lt : (xs : List A) (n i : ℕ) (v : A) → n ≤ i → take n (set xs i v) ≡ take n xs
  take-set_lt [] n i v h = refl
  take-set_lt (x ∷ xs) zero zero v h = refl
  take-set_lt (x ∷ xs) (suc n) zero v h = absurd (omega arith)
  take-set_lt (x ∷ xs) zero (suc i) v h = refl
  take-set_lt (x ∷ xs) (suc n) (suc i) v h = ap (◌∷◌ x) (take-set_lt xs n i v (omega arith))

  pub take-set :
      (xs : List A) (i : ℕ) (v : A)
      → i < length xs
      → take (suc i) (set xs i v) ≡ take i xs ++ v ∷ []
  take-set [] i v h = absurd (omega arith)
  take-set (x ∷ xs) zero v h = refl
  take-set (x ∷ xs) (suc i) v h = ap (◌∷◌ x) (take-set xs i v (omega arith))

  pub drop-set : (xs : List A) (n i : ℕ) (v : A) → i < n → drop n (set xs i v) ≡ drop n xs
  drop-set [] n i v h = refl
  drop-set (x ∷ xs) zero i v h = absurd (omega arith)
  drop-set (x ∷ xs) (suc n) zero v h = refl
  drop-set (x ∷ xs) (suc n) (suc i) v h = drop-set xs n i v (omega arith)

  -- Storing what stands there already.
  pub set-append : (xs ys : List A) (x v : A) → set (xs ++ (x ∷ ys)) (length xs) v ≡ xs ++ (v ∷ ys)
  set-append [] ys x v = refl
  set-append (z ∷ xs) ys x v = ap (◌∷◌ z) (set-append xs ys x v)

  pub take-replicate : (n m : ℕ) (a : A) → n ≤ m → take n (replicate m a) ≡ replicate n a
  take-replicate zero m a h = refl
  take-replicate (suc n) zero a h = absurd (omega arith)
  take-replicate (suc n) (suc m) a h = ap (◌∷◌ a) (take-replicate n m a (omega arith))

  -- A prefix that goes `n` elements beyond the first part.
  pub take_beyond :
      (xs ys : List A) (c n : ℕ) → length xs ≡ c → take (c + n) (xs ++ ys) ≡ xs ++ take n ys
  take_beyond xs ys c n h =
      let e : c + n - length xs ≡ n = omega arith in
      rw (take-append_ge (c + n) xs ys (omega arith), e)

  pub replicate-append : (n m : ℕ) (a : A) → replicate (n + m) a ≡ replicate n a ++ replicate m a
  replicate-append zero m a = ap (λ k. replicate k a) (omega arith)
  replicate-append (suc n) m a =
      let e : suc n + m ≡ suc (n + m) = omega arith in rw (e, replicate-append n m a)
