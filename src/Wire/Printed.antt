-- ===== src/Wire/Printed.antt =====
-- JSON as a sender prints it, with no blanks, and that the readers of mqtt_envelope_decoder.h and
-- mqtt_result_decoder.h read it back. A printer takes what is printed behind.
use esphome_communication_ne.Prelude.{
  ℕ, suc, ◌+◌, ◌<◌, ◌≡◌, ◌≢◌, ◌⊎◌, ◌∙◌, refl, Bool, true, some, List, [], ◌∷◌, ◌++◌, length, Bytes,
  All, arith, inl, inr,
}
use esphome_communication_ne.Wire.Reader.{Reader, chars, object, readers}
use esphome_communication_ne.Wire.Shrinks.{Shrinks, loop, loop_lem}

abbrev pub print_string : Bytes → Bytes → Bytes
print_string text rest = b'"' ∷ (text ++ b'"' ∷ rest)

-- What `string_` accepts between the quotes.
abbrev pub IsText : (ℕ → Bool) → ℕ → Bytes → Type 0
IsText allowed capacity text =
    All (λ c. (allowed c ≡ true) × (c ≢ b'"')) text × (0 < length text) × (length text < capacity)

chars_print_from :
    (allowed : ℕ → Bool) (capacity written : ℕ) (text rest : Bytes)
    → All (λ c. (allowed c ≡ true) × (c ≢ b'"')) text
    → 0 < written + length text
    → written + length text < capacity
    → chars allowed capacity written (text ++ b'"' ∷ rest) ≡ some (text, rest)
unfolding chars
chars_print_from allowed capacity written [] rest h p q = ground arith
chars_print_from allowed capacity written (c ∷ text) rest h p q = ground (
  arith,
  h.0.0,
  h.0.1,
  chars_print_from allowed capacity (suc written) text rest h.1 (omega arith) (omega arith),
)

pub chars-print :
    (allowed : ℕ → Bool) (capacity : ℕ) (text rest : Bytes)
    → IsText allowed capacity text
    → chars allowed capacity 0 (text ++ b'"' ∷ rest) ≡ some (text, rest)
chars-print allowed capacity text rest h =
    chars_print_from allowed capacity 0 text rest h.0 (omega arith) (omega arith)

abbrev pub IsDelimiter : ℕ → Type 0
IsDelimiter c = (c ≡ b',') ⊎ (c ≡ b'}')

-- The members of an object, with the brace that closes it.
abbrev pub print_members : {M : Type 0} → (M → Bytes → Bytes) → M → List M → Bytes → Bytes
print_members print m [] rest = print m (b'}' ∷ rest)
print_members print m (n ∷ ms) rest = print m (b',' ∷ print_members print n ms rest)

abbrev pub applied : {S M : Type 0} → (S → M → S) → S → M → List M → S
applied apply s m [] = apply s m
applied apply s m (n ∷ ms) = applied apply (apply s m) n ms

abbrev pub AllFit : {S M : Type 0} → (S → M → S) → (S → M → Type 0) → S → M → List M → Type 0
AllFit apply Fits s m [] = Fits s m
AllFit apply Fits s m (n ∷ ms) = Fits s m × AllFit apply Fits (apply s m) n ms

module _ {S M : Type 0} (print : M → Bytes → Bytes) (apply : S → M → S) (Fits : S → M → Type 0)
    (member : S → Reader S) (shrinks : (s : S) → Shrinks (member s))
    (reads : (s : S) (m : M) (c : ℕ) (rest : Bytes)
      → Fits s m
      → IsDelimiter c
      → member s (print m (c ∷ rest)) ≡ some (apply s m, c ∷ rest))
    (starts : (m : M) (rest : Bytes) → (r : Bytes) × (print m rest ≡ b'"' ∷ r)) where
  loop-print :
      (s : S) (m : M) (ms : List M) (rest : Bytes)
      → AllFit apply Fits s m ms
      → loop member shrinks s (print_members print m ms rest) ≡ some (applied apply s m ms, rest)
  unfolding readers
  loop-print s m [] rest h =
      loop_lem member shrinks s (print m (b'}' ∷ rest))
      ∙ ground (arith, reads s m b'}' rest h (inr refl))
  loop-print s m (n ∷ ms) rest h =
      loop_lem member shrinks s (print m (b',' ∷ print_members print n ms rest))
      ∙ ground (
        arith,
        reads s m b',' (print_members print n ms rest) h.0 (inl refl),
        loop-print (apply s m) n ms rest h.1,
      )

  starts_members :
      (m : M) (ms : List M) (rest : Bytes)
      → (r : Bytes) × (print_members print m ms rest ≡ b'"' ∷ r)
  starts_members m [] rest = starts m (b'}' ∷ rest)
  starts_members m (n ∷ ms) rest = starts m (b',' ∷ print_members print n ms rest)

  -- An object that is printed from members that fit is read back.
  pub object-print :
      (s : S) (m : M) (ms : List M) (rest : Bytes)
      → AllFit apply Fits s m ms
      → object member s (b'{' ∷ print_members print m ms rest) ≡ some (applied apply s m ms, rest)
  unfolding object readers
  object-print s m ms rest h =
      let (r, e) = starts_members m ms rest in ground (arith, e, loop-print s m ms rest h)
