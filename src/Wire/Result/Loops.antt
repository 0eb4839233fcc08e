-- ===== src/Wire/Result/Loops.antt =====
-- mqtt_result_decoder.h: every member of an object consumes, so the loops end by themselves.
use esphome_communication_ne.Prelude.{
  ℕ, zero, suc, ◌≤◌, ◌≡◌, Bool, true, false, Option, some, [], ◌∷◌, if◌then◌else◌, length, Bytes,
  arith, codes, Bool-cases, Option-cases, inl, inr,
}
use esphome_communication_ne.Wire.Reader.{Reader, ◌>>◌, space_, consume_, expect}
use esphome_communication_ne.Wire.Result.{Result, string_, error_member, error_, member}
use esphome_communication_ne.Wire.Result.Skip.{
  skip_chars, skip_literal, skip_digits, some_digits, whole_part, fraction, skip_number, skip_from,
  close, skip_items, skip_inside, skip_levels, skip_,
}
use esphome_communication_ne.Wire.Shrinks.{
  Shrinks, Keeps, consuming, >>=-Shrinks, >>=-Keeps, lift-Keeps, Shrinks-Keeps, if-Keeps,
  expect-Shrinks, object-Shrinks, space-le, consume-le,
}

chars-le :
    (escaped : Bool) (r : Bytes) (u : Unit {0}) (rest : Bytes)
    → skip_chars escaped r ≡ some (u, rest)
    → length rest ≤ length r
unfolding skip_chars
chars-le true [] u rest h = absurd (cc)
chars-le false [] u rest h = absurd (cc)
chars-le true (c ∷ r) u rest h = ground (arith, chars-le false r u rest)
chars-le false (c ∷ r) u rest h = ground (arith, chars-le false r u rest, chars-le true r u rest)

literal-le :
    (word r : Bytes) (u : Unit {0}) (rest : Bytes)
    → skip_literal word r ≡ some (u, rest)
    → length rest ≤ length r
unfolding skip_literal
literal-le [] r u rest h = ground arith
literal-le (c ∷ word) [] u rest h = absurd (cc)
literal-le (c ∷ word) (d ∷ r) u rest h = ground (arith, literal-le word r u rest)

digits-le : (r : Bytes) → length (skip_digits r) ≤ length r
unfolding skip_digits
digits-le [] = omega arith
digits-le (c ∷ r) = ground (arith, digits-le r)

some_digits-Keeps : Keeps some_digits
some_digits-Keeps = record {
  no_more = elim [
    | [] ↦ λ a rest h. absurd (cc)
    | c ∷ r ↦ λ a rest h. ground (arith, digits-le (c ∷ r))
  ];
}

whole_part-Keeps : Keeps whole_part
whole_part-Keeps = record {
  no_more = elim [
    | [] ↦ λ a rest h. absurd (cc)
    | c ∷ r ↦ λ a rest h. ground (arith, digits-le (c ∷ r))
  ];
}

fraction-Keeps : Keeps fraction
fraction-Keeps = record {
  no_more = elim [
    | [] ↦ λ a rest h. ground arith
    | c ∷ r ↦ λ a rest h. ground (arith, some_digits-Keeps.no_more r a rest)
  ];
}

number-Keeps : Keeps skip_number
unfolding skip_number
number-Keeps =
    let tail = >>=-Keeps whole_part (λ _. fraction) whole_part-Keeps (λ _. fraction-Keeps) in
    record {
      no_more = elim [
        | [] ↦ λ a rest h. absurd (cc)
        | c ∷ r ↦ λ a rest h. ground (arith, tail.no_more r a rest, tail.no_more (c ∷ r) a rest)
      ];
    }

from-Keeps :
    (inside : Bool → Reader (Unit {0})) → ((b : Bool) → Keeps (inside b)) → Keeps (skip_from inside)
unfolding skip_from
from-Keeps inside h = record {
  no_more = elim [
    | [] ↦ λ a rest e. absurd (cc)
    | c ∷ r ↦ λ a rest e. ground (
      arith,
      chars-le false r a rest,
      (h true).no_more r a rest,
      (h false).no_more r a rest,
      literal-le (codes "true") (c ∷ r) a rest,
      literal-le (codes "false") (c ∷ r) a rest,
      literal-le (codes "null") (c ∷ r) a rest,
      number-Keeps.no_more (c ∷ r) a rest,
    )
  ];
}

module _ (value : Reader (Unit {0})) (keeps : Keeps value) where
  one-Keeps : (b : Bool) → Keeps (if b then (value >> (expect b':' >> value)) else value)
  one-Keeps b =
      if-Keeps b (value >> (expect b':' >> value)) value
        (>>=-Keeps value (λ _. expect b':' >> value) keeps
          (λ _.
            >>=-Keeps (expect b':') (λ _. value) (Shrinks-Keeps (expect b':') (expect-Shrinks b':'))
              (λ _. keeps)))
        keeps

  items-Keeps : (fuel : ℕ) (b : Bool) → Keeps (skip_items value fuel b)
  unfolding skip_items
  items-Keeps zero b = record { no_more = λ r a rest h. absurd (cc) }
  items-Keeps (suc fuel) b = record {
    no_more = λ r a rest h.
        elim (Option-cases ((if b then (value >> (expect b':' >> value)) else value) r)) [
          | inl e ↦ absurd (ground arith)
          | inr ((u, r'), e) ↦ elim (Bool-cases (consume_ (close b) r').0) [
            | inl closed ↦ ground (arith, (one-Keeps b).no_more r u r' e, consume-le (close b) r')
            | inr more ↦ elim (Option-cases (expect b',' (consume_ (close b) r').1)) [
              | inl f ↦ absurd (ground arith)
              | inr ((w, r''), f) ↦ ground (
                arith,
                (one-Keeps b).no_more r u r' e,
                consume-le (close b) r',
                (expect-Shrinks b',').fewer (consume_ (close b) r').1 w r'' f,
                (items-Keeps fuel b).no_more r'' a rest,
              )
            ]
          ]
        ];
  }

  inside-Keeps : (b : Bool) → Keeps (skip_inside value b)
  unfolding skip_inside
  inside-Keeps b = record {
    no_more = λ r a rest h. ground (
      arith,
      consume-le (close b) r,
      (items-Keeps (suc (length r)) b).no_more (consume_ (close b) r).1 a rest,
    );
  }

levels-Keeps : (levels : ℕ) → Keeps (skip_levels levels)
unfolding skip_levels
levels-Keeps zero = record { no_more = λ r a rest h. absurd (cc) }
levels-Keeps (suc l) =
    let from =
      from-Keeps (skip_inside (skip_levels l)) (inside-Keeps (skip_levels l) (levels-Keeps l)) in
    record { no_more = λ r a rest h. omega (arith, from.no_more (space_ r) a rest h, space-le r) }

skip-Keeps : Keeps skip_
unfolding skip_
skip-Keeps = levels-Keeps 9

pub error_member-Shrinks : (s : Option Bytes) → Shrinks (error_member s)
unfolding error_member string_
error_member-Shrinks s = search (consuming, skip-Keeps) depth 20

error-Shrinks : Shrinks error_
unfolding error_
error-Shrinks = search (>>=-Shrinks, object-Shrinks, error_member-Shrinks, lift-Keeps)

pub member-Shrinks : (s : Result) → Shrinks (member s)
unfolding member string_
member-Shrinks s = search (consuming, skip-Keeps, error-Shrinks) depth 30
