-- ===== src/Wire/Shrinks.antt =====
-- Readers consume: the loop over the members of an object never runs out of fuel.
use esphome_communication_ne.Prelude.{
  ℕ, zero, suc, ◌≤◌, ◌<◌, ◌≡◌, Bool, true, false, Option, none, some, [], ◌∷◌, if◌then◌else◌,
  length, Bytes, arith, Bool-cases, Option-cases, inl, inr,
}
use esphome_communication_ne.Wire.Reader.{
  Reader, ◌>>=◌, ◌>>◌, pure, fail, lift, guard, drop_if, space_, consume_, expect, not_close, open_,
  chars, quoted, members, object,
}

-- A reader that takes one byte at least, and one that gives none back.
pub record Shrinks {A : Type 0} (m : Reader A) : Type 0 where
  pub fewer : (r : Bytes) (a : A) (rest : Bytes) → m r ≡ some (a, rest) → length rest < length r

pub record Keeps {A : Type 0} (m : Reader A) : Type 0 where
  pub no_more : (r : Bytes) (a : A) (rest : Bytes) → m r ≡ some (a, rest) → length rest ≤ length r

pub space-le : (r : Bytes) → length (space_ r) ≤ length r
unfolding space_
space-le [] = omega arith
space-le (c ∷ r) = ground (arith, space-le r)

drop_if-le : (c : ℕ) (r : Bytes) → length (drop_if c r).1 ≤ length r
drop_if-le c [] = omega arith
drop_if-le c (d ∷ r) = ground arith

drop_if-lt : (c : ℕ) (r : Bytes) → (drop_if c r).0 ≡ true → length (drop_if c r).1 < length r
drop_if-lt c [] h = cc
drop_if-lt c (d ∷ r) h = ground arith

pub consume-le : (c : ℕ) (r : Bytes) → length (consume_ c r).1 ≤ length r
unfolding consume_
consume-le c r = omega (arith, drop_if-le c (space_ r), space-le r)

pub expect-Shrinks : (c : ℕ) → Shrinks (expect c)
unfolding expect
expect-Shrinks c = record {
  fewer = λ r a rest h. ground (arith, drop_if-lt c (space_ r), space-le r);
}

chars-lt :
    (allowed : ℕ → Bool) (capacity written : ℕ) (r a rest : Bytes)
    → chars allowed capacity written r ≡ some (a, rest)
    → length rest < length r
unfolding chars
chars-lt allowed capacity written [] a rest h = cc
chars-lt allowed capacity written (c ∷ r) a rest h =
    elim (Option-cases (chars allowed capacity (suc written) r)) [
      | inl e ↦ ground arith
      | inr ((text, r'), e) ↦ ground (arith, chars-lt allowed capacity (suc written) r text r')
    ]

module _ {A B : Type 0} where
  pub >>=-Shrinks :
      (m : Reader A) (f : A → Reader B) → Shrinks m → ((a : A) → Keeps (f a)) → Shrinks (m >>= f)
  unfolding ◌>>=◌
  >>=-Shrinks m f hm hf = record {
    fewer = λ r b rest h. elim (Option-cases (m r)) [
      | inl e ↦ ground arith
      | inr ((a, r'), e) ↦ ground (arith, hm.fewer r a r', (hf a).no_more r' b rest)
    ];
  }

  pub >>=-Keeps :
      (m : Reader A) (f : A → Reader B) → Keeps m → ((a : A) → Keeps (f a)) → Keeps (m >>= f)
  unfolding ◌>>=◌
  >>=-Keeps m f hm hf = record {
    no_more = λ r b rest h. elim (Option-cases (m r)) [
      | inl e ↦ ground arith
      | inr ((a, r'), e) ↦ ground (arith, hm.no_more r a r', (hf a).no_more r' b rest)
    ];
  }

module _ {A : Type 0} where
  pub if-Keeps : (b : Bool) (m n : Reader A) → Keeps m → Keeps n → Keeps (if b then m else n)
  if-Keeps true m n hm hn = hm
  if-Keeps false m n hm hn = hn

  pub Shrinks-Keeps : (m : Reader A) → Shrinks m → Keeps m
  Shrinks-Keeps m hm = record { no_more = λ r a rest h. omega (arith, hm.fewer r a rest h) }

  pub pure-Keeps : (a : A) → Keeps (pure a)
  pure-Keeps a = record { no_more = λ r b rest h. ground arith }

  pub fail-Keeps : Keeps (fail {A = A})
  fail-Keeps = record { no_more = λ r b rest h. ground arith }

  pub lift-Keeps : (o : Option A) → Keeps (lift o)
  lift-Keeps none = fail-Keeps
  lift-Keeps (some a) = pure-Keeps a

pub guard-Keeps : (b : Bool) → Keeps (guard b)
guard-Keeps true = pure-Keeps tt
guard-Keeps false = fail-Keeps

not_close-le :
    (r : Bytes) (a : Unit {0}) (rest : Bytes)
    → not_close r ≡ some (a, rest)
    → length rest ≤ length r
not_close-le [] a rest h = cc
not_close-le (c ∷ r) a rest h = ground arith

pub quoted-Shrinks : (allowed : ℕ → Bool) (capacity : ℕ) → Shrinks (quoted allowed capacity)
unfolding quoted
quoted-Shrinks allowed capacity =
    >>=-Shrinks (expect b'"') (λ _. chars allowed capacity 0) (expect-Shrinks b'"')
      (λ _. record {
        no_more = λ r a rest h. omega (arith, chars-lt allowed capacity 0 r a rest h);
      })

open-Shrinks : Shrinks open_
unfolding open_
open-Shrinks =
    >>=-Shrinks (expect b'{') (λ _ r. not_close (space_ r)) (expect-Shrinks b'{')
      (λ _. record {
        no_more = λ r a rest h. omega (arith, space-le r, not_close-le (space_ r) a rest h);
      })

module _ {S : Type 0} (member : S → Reader S) (shrinks : (s : S) → Shrinks (member s)) where
  members-le :
      (fuel : ℕ) (s : S) (r : Bytes) (a : S) (rest : Bytes)
      → members member fuel s r ≡ some (a, rest)
      → length rest ≤ length r
  unfolding members
  members-le zero s r a rest h = cc
  members-le (suc fuel) s r a rest h = elim (Option-cases (member s r)) [
    | inl e ↦ ground arith
    | inr ((s', r'), e) ↦ elim (Bool-cases (consume_ b'}' r').0) [
      | inl closed ↦ ground (arith, (shrinks s).fewer r s' r' e, consume-le b'}' r')
      | inr more ↦ elim (Option-cases (expect b',' (consume_ b'}' r').1)) [
        | inl f ↦ ground arith
        | inr ((u, r''), f) ↦ ground (
          arith,
          (shrinks s).fewer r s' r' e,
          consume-le b'}' r',
          (expect-Shrinks b',').fewer (consume_ b'}' r').1 u r'' f,
          members-le fuel s' r'' a rest,
        )
      ]
    ]
  ]

  pub object-Shrinks : (s : S) → Shrinks (object member s)
  unfolding object
  object-Shrinks s =
      >>=-Shrinks open_ (λ _ r. members member (suc (length r)) s r) open-Shrinks
        (λ _. record { no_more = λ r a rest h. members-le (suc (length r)) s r a rest h })

  -- Any two amounts of fuel above the bytes that are left give the same.
  members_enough :
      (f g : ℕ) (s : S) (r : Bytes)
      → length r < f
      → length r < g
      → members member f s r ≡ members member g s r
  unfolding members
  members_enough zero g s r p q = absurd (omega arith)
  members_enough (suc f) zero s r p q = absurd (omega arith)
  members_enough (suc f) (suc g) s r p q = elim (Option-cases (member s r)) [
    | inl e ↦ ground arith
    | inr ((s', r'), e) ↦ elim (Option-cases (expect b',' (consume_ b'}' r').1)) [
      | inl h ↦ ground arith
      | inr ((u, r''), h) ↦ ground (
        arith,
        (shrinks s).fewer r s' r' e,
        consume-le b'}' r',
        (expect-Shrinks b',').fewer (consume_ b'}' r').1 u r'' h,
        members_enough f g s' r'',
      )
    ]
  ]

  -- The loop as the source has it, with no fuel: what `object` runs behind the opening brace.
  abbrev pub loop : S → Reader S
  loop s r = members member (suc (length r)) s r

  -- The loop of every object reader does what `do { member; if (consume_('}')) break; if
  -- (!consume_(',')) return false; } while (true)` does in one round, where each member consumes at
  -- least one byte.
  pub loop_lem :
      (s : S) (r : Bytes)
      → loop s r ≡ elim (member s r) [
        | none ↦ none
        | some (s', r') ↦
            if (consume_ b'}' r').0
            then some (s', (consume_ b'}' r').1)
            else (expect b',' >> loop s') (consume_ b'}' r').1
      ]
  unfolding members ◌>>=◌
  loop_lem s r = elim (Option-cases (member s r)) [
    | inl e ↦ ground arith
    | inr ((s', r'), e) ↦ elim (Option-cases (expect b',' (consume_ b'}' r').1)) [
      | inl h ↦ ground arith
      | inr ((u, r''), h) ↦ ground (
        arith,
        (shrinks s).fewer r s' r' e,
        consume-le b'}' r',
        (expect-Shrinks b',').fewer (consume_ b'}' r').1 u r'' h,
        members_enough (length r) (suc (length r'')) s' r'',
      )
    ]
  ]

pub ruleset consuming = (
  >>=-Shrinks, >>=-Keeps, Shrinks-Keeps, if-Keeps, pure-Keeps, lift-Keeps, fail-Keeps, guard-Keeps,
  quoted-Shrinks, expect-Shrinks,
)
