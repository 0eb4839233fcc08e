-- ===== src/Prelude/Lists.antt =====
-- Fixed arrays and byte strings as lists, measured and indexed by native numbers.
use Prim.Native.Nat.{ℕ, zero, suc, ◌+◌, ◌≤◌, ◌<◌, min}
use mathlib.Core.Path.{◌≡◌, refl, ap, sym, ◌∙◌}
use native.Mathlib.Decide.{dec_lt}
use mathlib.Core.Logic.{◌≢◌, ◌↔◌}
use mathlib.Core.Bool.{Bool, true, false, ◌&&◌}
use mathlib.Core.List.{List, [], ◌∷◌, ◌++◌}
use mathlib.Core.Option
use mathlib.Core.Option.{Option, none, some}
use native.Mathlib.Omega.{arith}
use esphome_communication_ne.Prelude.Tests.{◌==◌, if◌then◌else◌}

module _ {ℓ} {A : Type ℓ} where
  abbrev pub length : List A → ℕ
  length [] = 0
  length (x ∷ xs) = suc (length xs)

  abbrev pub get_elem? : List A → ℕ → Option A
  get_elem? [] i = none
  get_elem? (x ∷ xs) zero = some x
  get_elem? (x ∷ xs) (suc i) = get_elem? xs i

  -- A read of an array; `d` stands for what lies out of bounds, which no caller reads.
  abbrev pub get_or : List A → ℕ → A → A
  get_or [] i d = d
  get_or (x ∷ xs) zero d = x
  get_or (x ∷ xs) (suc i) d = get_or xs i d

  abbrev pub set : List A → ℕ → A → List A
  set [] i v = []
  set (x ∷ xs) zero v = v ∷ xs
  set (x ∷ xs) (suc i) v = x ∷ set xs i v

  abbrev pub take : ℕ → List A → List A
  take zero xs = []
  take (suc n) [] = []
  take (suc n) (x ∷ xs) = x ∷ take n xs

  abbrev pub drop : ℕ → List A → List A
  drop zero xs = xs
  drop (suc n) [] = []
  drop (suc n) (x ∷ xs) = drop n xs

  abbrev pub replicate : ℕ → A → List A
  replicate zero a = []
  replicate (suc n) a = a ∷ replicate n a

  -- The first index whose element passes the test: the `for` loops that return at a match.
  unfoldable pub find_index? : (A → Bool) → List A → Option ℕ
  find_index? p [] = none
  find_index? p (x ∷ xs) = if p x then some 0 else Option.map suc (find_index? p xs)

  abbrev pub All {κ} : (A → Type κ) → List A → Type κ
  All P [] = Unit
  All P (x ∷ xs) = P x × All P xs

module _ {ℓ} {A : Type ℓ} where
  pub length-append : (xs ys : List A) → length (xs ++ ys) ≡ length xs + length ys
  length-append [] ys = omega arith
  length-append (x ∷ xs) ys = omega (arith, length-append xs ys)

  pub length-set : (xs : List A) (i : ℕ) (v : A) → length (set xs i v) ≡ length xs
  length-set [] i v = refl
  length-set (x ∷ xs) zero v = refl
  length-set (x ∷ xs) (suc i) v = ap suc (length-set xs i v)

  pub length-replicate : (n : ℕ) (a : A) → length (replicate n a) ≡ n
  length-replicate zero a = refl
  length-replicate (suc n) a = ap suc (length-replicate n a)

  pub take-length : (xs : List A) → take (length xs) xs ≡ xs
  take-length [] = refl
  take-length (x ∷ xs) = ap (◌∷◌ x) (take-length xs)

  pub take-append : (xs ys : List A) → take (length xs) (xs ++ ys) ≡ xs
  take-append [] ys = refl
  take-append (x ∷ xs) ys = ap (◌∷◌ x) (take-append xs ys)

  pub drop-append : (xs ys : List A) → drop (length xs) (xs ++ ys) ≡ ys
  drop-append [] ys = refl
  drop-append (x ∷ xs) ys = drop-append xs ys

  -- Two appends with first parts of one length are equal only part by part.
  pub append-injective :
      (xs ys zs ws : List A) → length xs ≡ length ys → xs ++ zs ≡ ys ++ ws → (xs ≡ ys) × (zs ≡ ws)
  append-injective [] [] zs ws l h = (refl, h)
  append-injective [] (y ∷ ys) zs ws l h = absurd (omega arith)
  append-injective (x ∷ xs) [] zs ws l h = absurd (omega arith)
  append-injective (x ∷ xs) (y ∷ ys) zs ws l h =
      ground (arith, append-injective xs ys zs ws (omega arith))

  pub get_or-set_self :
      (xs : List A) (i : ℕ) (v d : A) → i < length xs → get_or (set xs i v) i d ≡ v
  get_or-set_self [] i v d h = elim h [ ]
  get_or-set_self (x ∷ xs) zero v d h = refl
  get_or-set_self (x ∷ xs) (suc i) v d h = get_or-set_self xs i v d (omega arith)

  pub get_or-set_ne :
      (xs : List A) (i j : ℕ) (v d : A) → i ≢ j → get_or (set xs i v) j d ≡ get_or xs j d
  get_or-set_ne [] i j v d h = refl
  get_or-set_ne (x ∷ xs) zero zero v d h = absurd (h refl)
  get_or-set_ne (x ∷ xs) zero (suc j) v d h = refl
  get_or-set_ne (x ∷ xs) (suc i) zero v d h = refl
  get_or-set_ne (x ∷ xs) (suc i) (suc j) v d h = get_or-set_ne xs i j v d (λ e. h (ap suc e))

  -- A read after a write, at any two places.
  pub get_or-set :
      (xs : List A) (i j : ℕ) (v d : A)
      → i < length xs
      → get_or (set xs i v) j d ≡ (if i == j then v else get_or xs j d)
  get_or-set [] i j v d h = elim h [ ]
  get_or-set (x ∷ xs) zero zero v d h = refl
  get_or-set (x ∷ xs) zero (suc j) v d h = ground arith
  get_or-set (x ∷ xs) (suc i) zero v d h = ground arith
  get_or-set (x ∷ xs) (suc i) (suc j) v d h = ground (arith, get_or-set xs i j v d (omega arith))

  pub All-set {κ} :
      (P : A → Type κ) (xs : List A) (i : ℕ) (v : A) → All P xs → P v → All P (set xs i v)
  All-set P [] i v h p = h
  All-set P (x ∷ xs) zero v h p = (p, h.1)
  All-set P (x ∷ xs) (suc i) v h p = (h.0, All-set P xs i v h.1 p)

  pub All-get_or {κ} :
      (P : A → Type κ) (xs : List A) (i : ℕ) (d : A) → All P xs → P d → P (get_or xs i d)
  All-get_or P [] i d h p = p
  All-get_or P (x ∷ xs) zero d h p = h.0
  All-get_or P (x ∷ xs) (suc i) d h p = All-get_or P xs i d h.1 p

  pub All-replicate {κ} : (P : A → Type κ) (n : ℕ) (a : A) → P a → All P (replicate n a)
  All-replicate P zero a p = tt
  All-replicate P (suc n) a p = (p, All-replicate P n a p)

  -- What a search that succeeds has found.
  pub find_index?-some :
      (p : A → Bool) (xs : List A) (i : ℕ) (d : A)
      → find_index? p xs ≡ some i
      → (i < length xs) × (p (get_or xs i d) ≡ true)
  unfolding find_index?
  find_index?-some p [] i d h = cc
  find_index?-some p (x ∷ xs) zero d h = ground arith
  find_index?-some p (x ∷ xs) (suc i) d h = ground (arith, find_index?-some p xs i d)

  -- A search fails only where no element passes.
  pub find_index?-none :
      (p : A → Bool) (xs : List A) (i : ℕ) (d : A)
      → find_index? p xs ≡ none
      → i < length xs
      → p (get_or xs i d) ≡ false
  unfolding find_index?
  find_index?-none p [] i d h l = elim l [ ]
  find_index?-none p (x ∷ xs) zero d h l = ground arith
  find_index?-none p (x ∷ xs) (suc i) d h l = ground (arith, find_index?-none p xs i d)

  -- The same at any index, where what stands out of bounds does not pass either.
  pub find_index?-none_at :
      (p : A → Bool) (xs : List A) (i : ℕ) (d : A)
      → find_index? p xs ≡ none
      → p d ≡ false
      → p (get_or xs i d) ≡ false
  unfolding find_index?
  find_index?-none_at p [] i d h l = l
  find_index?-none_at p (x ∷ xs) zero d h l = ground arith
  find_index?-none_at p (x ∷ xs) (suc i) d h l = ground (arith, find_index?-none_at p xs i d)

  -- No earlier element passes.
  pub find_index?-first :
      (p : A → Bool) (xs : List A) (i j : ℕ) (d : A)
      → find_index? p xs ≡ some i
      → j < i
      → p (get_or xs j d) ≡ false
  unfolding find_index?
  find_index?-first p [] i j d h l = cc
  find_index?-first p (x ∷ xs) zero j d h l = elim l [ ]
  find_index?-first p (x ∷ xs) (suc i) zero d h l = ground arith
  find_index?-first p (x ∷ xs) (suc i) (suc j) d h l = ground (arith, find_index?-first p xs i j d)

  -- A write over the element that was found keeps it the one that is found.
  pub find_index?-set :
      (p : A → Bool) (xs : List A) (i : ℕ) (v : A)
      → find_index? p xs ≡ some i
      → p v ≡ true
      → find_index? p (set xs i v) ≡ some i
  unfolding find_index?
  find_index?-set p [] i v h q = h
  find_index?-set p (x ∷ xs) zero v h q = ground arith
  find_index?-set p (x ∷ xs) (suc i) v h q = ground (arith, find_index?-set p xs i v)

  -- A write that the test does not tell from what stood there does not change the search.
  pub find_index?-set_same :
      (p : A → Bool) (xs : List A) (i : ℕ) (v d : A)
      → p v ≡ p (get_or xs i d)
      → i < length xs
      → find_index? p (set xs i v) ≡ find_index? p xs
  unfolding find_index?
  find_index?-set_same p [] i v d h l = refl
  find_index?-set_same p (x ∷ xs) zero v d h l = ground arith
  find_index?-set_same p (x ∷ xs) (suc i) v d h l =
      ground (arith, find_index?-set_same p xs i v d h (omega arith))

  -- A write that makes the first element pass.
  pub find_index?-set_new :
      (p : A → Bool) (xs : List A) (i : ℕ) (v : A)
      → find_index? p xs ≡ none
      → p v ≡ true
      → i < length xs
      → find_index? p (set xs i v) ≡ some i
  unfolding find_index?
  find_index?-set_new p [] i v h q l = elim l [ ]
  find_index?-set_new p (x ∷ xs) zero v h q l = ground arith
  find_index?-set_new p (x ∷ xs) (suc i) v h q l = ground (arith, find_index?-set_new p xs i v)

  -- A search in a list with one more element.
  pub find_index?-concat :
      (p : A → Bool) (xs : List A) (x : A)
      → find_index? p (xs ++ x ∷ []) ≡ elim (find_index? p xs) [
        | some i ↦ some i
        | none ↦ if p x then some (length xs) else none
      ]
  unfolding find_index?
  find_index?-concat p [] x = ground arith
  find_index?-concat p (y ∷ xs) x = ground (arith, find_index?-concat p xs x)

  pub get_elem?-append_lt :
      (xs ys : List A) (i : ℕ) → i < length xs → get_elem? (xs ++ ys) i ≡ get_elem? xs i
  get_elem?-append_lt [] ys i h = elim h [ ]
  get_elem?-append_lt (x ∷ xs) ys zero h = refl
  get_elem?-append_lt (x ∷ xs) ys (suc i) h = get_elem?-append_lt xs ys i (omega arith)

  pub get_elem?-length : (xs : List A) (y : A) → get_elem? (xs ++ y ∷ []) (length xs) ≡ some y
  get_elem?-length [] y = refl
  get_elem?-length (x ∷ xs) y = get_elem?-length xs y

  pub get_elem?_outside : (xs : List A) (i : ℕ) → length xs ≤ i → get_elem? xs i ≡ none
  get_elem?_outside [] i h = refl
  get_elem?_outside (x ∷ xs) zero h = elim h [ ]
  get_elem?_outside (x ∷ xs) (suc i) h = get_elem?_outside xs i (omega arith)

  pub get_elem?_inside :
      (xs : List A) (i : ℕ) (d : A) → i < length xs → get_elem? xs i ≡ some (get_or xs i d)
  get_elem?_inside [] i d h = elim h [ ]
  get_elem?_inside (x ∷ xs) zero d h = refl
  get_elem?_inside (x ∷ xs) (suc i) d h = get_elem?_inside xs i d (omega arith)

  pub get_or-append_lt :
      (xs ys : List A) (i : ℕ) (d : A) → i < length xs → get_or (xs ++ ys) i d ≡ get_or xs i d
  get_or-append_lt [] ys i d h = elim h [ ]
  get_or-append_lt (x ∷ xs) ys zero d h = refl
  get_or-append_lt (x ∷ xs) ys (suc i) d h = get_or-append_lt xs ys i d (omega arith)

  pub get_or-length : (xs : List A) (y d : A) → get_or (xs ++ y ∷ []) (length xs) d ≡ y
  get_or-length [] y d = refl
  get_or-length (x ∷ xs) y d = get_or-length xs y d

  -- A property that tells the elements of a list apart, and the new one from each, tells those of
  -- the longer list apart.
  pub concat-distinct {κ} :
      {B : Type κ} (f : A → B) (xs : List A) (y d : A)
      → ((i j : ℕ) → i < length xs → j < length xs → f (get_or xs i d) ≡ f (get_or xs j d) → i ≡ j)
      → ((i : ℕ) → i < length xs → f (get_or xs i d) ≢ f y)
      → (i j : ℕ) → i < length (xs ++ y ∷ [])
      → j < length (xs ++ y ∷ [])
      → f (get_or (xs ++ y ∷ []) i d) ≡ f (get_or (xs ++ y ∷ []) j d)
      → i ≡ j
  concat-distinct f xs y d old new i j li lj e = elim (dec_lt i (length xs)) [
    | yes p ↦ elim (dec_lt j (length xs)) [
      | yes q ↦ old i j p q (
          sym (ap f (get_or-append_lt xs (y ∷ []) i d p))
          ∙ e
          ∙ ap f (get_or-append_lt xs (y ∷ []) j d q))
      | no q ↦
          let last : j ≡ length xs = omega (arith, length-append xs (y ∷ [])) in
          absurd (
            new i p (
              sym (ap f (get_or-append_lt xs (y ∷ []) i d p))
              ∙ e
              ∙ ap f (rw last (get_or-length xs y d))))
    ]
    | no p ↦
        let last_i : i ≡ length xs = omega (arith, length-append xs (y ∷ [])) in
        elim (dec_lt j (length xs)) [
          | yes q ↦ absurd (
              new j q (
                sym (ap f (get_or-append_lt xs (y ∷ []) j d q))
                ∙ sym e
                ∙ ap f (rw last_i (get_or-length xs y d))))
          | no q ↦ omega (arith, length-append xs (y ∷ []))
        ]
  ]

-- Byte strings. A C string is the list of its bytes before the NUL.
abbrev pub Bytes : Type 0
Bytes = List ℕ

-- `strcmp(a, b) == 0`, and `memcmp` of two blocks of one length.
unfoldable pub str_eq : Bytes → Bytes → Bool
str_eq [] [] = true
str_eq [] (c ∷ b) = false
str_eq (c ∷ a) [] = false
str_eq (c ∷ a) (d ∷ b) = str_eq a b && c == d

pub str_eq_sound : (a b : Bytes) → str_eq a b ≡ true → a ≡ b
unfolding str_eq
str_eq_sound [] [] h = refl
str_eq_sound [] (c ∷ b) h = cc
str_eq_sound (c ∷ a) [] h = cc
str_eq_sound (c ∷ a) (d ∷ b) h = ground (arith, str_eq_sound a b)

str_eq_same : (a : Bytes) → str_eq a a ≡ true
unfolding str_eq
str_eq_same [] = refl
str_eq_same (c ∷ a) = ground (arith, str_eq_same a)

pub str_eq_iff : (a b : Bytes) → (str_eq a b ≡ true) ↔ (a ≡ b)
str_eq_iff a b = (str_eq_sound a b, λ e. rw (← e) (str_eq_same a))

pub str_eq_refl : (a : Bytes) → str_eq a a ≡ true
str_eq_refl a = (str_eq_iff a a).1 refl

-- The bytes before the NUL, counted up to the bound: `while (n < bound && value[n] != 0) ++n`.
unfoldable pub strnlen : ℕ → Bytes → ℕ
strnlen zero value = 0
strnlen (suc bound) [] = 0
strnlen (suc bound) (c ∷ value) = suc (strnlen bound value)

pub strnlen-min : (bound : ℕ) (value : Bytes) → strnlen bound value ≡ min bound (length value)
unfolding strnlen
strnlen-min zero value = omega arith
strnlen-min (suc bound) [] = omega arith
strnlen-min (suc bound) (c ∷ value) = omega (arith, strnlen-min bound value)

pub take-strnlen :
    (bound : ℕ) (value : Bytes) → length value ≤ bound → take (strnlen bound value) value ≡ value
take-strnlen bound value h =
    let e : strnlen bound value ≡ length value = omega (arith, strnlen-min bound value) in
    rw e (take-length value)

-- `memcpy` of a whole source block to the start of an array, and `memcmp(a, b, n) == 0`.
abbrev pub memcpy : Bytes → Bytes → Bytes
memcpy dst src = src ++ drop (length src) dst

abbrev pub memcmp : Bytes → Bytes → ℕ → Bool
memcmp a b n = str_eq (take n a) (take n b)

-- A pointer to bytes with a length beside it: null with any length, or a block of that length.
pub data Span : Type 0 where
  null : ℕ → Span
  block : Bytes → Span

abbrev pub span_length : Span → ℕ
span_length (null n) = n
span_length (block b) = length b
