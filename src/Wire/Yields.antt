-- ===== src/Wire/Yields.antt =====
-- What a reader that succeeds has read.
use esphome_communication_ne.Prelude.{
  ℕ, zero, suc, ◌+◌, ◌<◌, ◌≡◌, ◌≢◌, refl, Bool, true, false, Option, none, some, [], ◌∷◌,
  if◌then◌else◌, length, Bytes, All, arith, Bool-cases, Option-cases, inl, inr,
}
use esphome_communication_ne.Wire.Printed.{IsText}
use esphome_communication_ne.Wire.Reader.{
  Reader, ◌>>=◌, pure, fail, lift, guard, consume_, expect, open_, chars, quoted, members, object,
}

pub record Yields {A : Type 0} (Q : A → Type 0) (m : Reader A) : Type 0 where
  pub result : (r : Bytes) (a : A) (rest : Bytes) → m r ≡ some (a, rest) → Q a

module _ {A B : Type 0} {Q : B → Type 0} where
  pub >>=-Yields :
      (P : A → Type 0) (m : Reader A) (f : A → Reader B)
      → Yields P m
      → ((a : A) → P a → Yields Q (f a))
      → Yields Q (m >>= f)
  unfolding ◌>>=◌
  >>=-Yields P m f hm hf = record {
    result = λ r b rest h. elim (Option-cases (m r)) [
      | inl e ↦ absurd (ground arith)
      | inr ((a, r'), e) ↦ (hf a (hm.result r a r' e)).result r' b rest (ground arith)
    ];
  }

  -- A reader whose value does not matter.
  pub >>-Yields :
      (m : Reader A) (f : A → Reader B) → ((a : A) → Yields Q (f a)) → Yields Q (m >>= f)
  unfolding ◌>>=◌
  >>-Yields m f hf = record {
    result = λ r b rest h. elim (Option-cases (m r)) [
      | inl e ↦ absurd (ground arith)
      | inr ((a, r'), e) ↦ (hf a).result r' b rest (ground arith)
    ];
  }

  pub lift-Yields :
      (o : Option A) (f : A → Reader B)
      → ((a : A) → o ≡ some a → Yields Q (f a))
      → Yields Q (lift o >>= f)
  unfolding ◌>>=◌
  lift-Yields none f hf = record { result = λ r b rest h. absurd (cc) }
  lift-Yields (some a) f hf = hf a refl

module _ {A : Type 0} {Q : A → Type 0} where
  pub pure-Yields : (a : A) → Q a → Yields Q (pure a)
  pure-Yields a q = record { result = λ r b rest h. let e : a ≡ b = cc in rw e at q }

  pub fail-Yields : Yields Q fail
  fail-Yields = record { result = λ r b rest h. absurd (cc) }

  pub if-Yields :
      (b : Bool) (m n : Reader A)
      → (b ≡ true → Yields Q m)
      → (b ≡ false → Yields Q n)
      → Yields Q (if b then m else n)
  if-Yields true m n hm hn = hm refl
  if-Yields false m n hm hn = hn refl

  pub guard-Yields :
      (b : Bool) (f : Unit {0} → Reader A) → (b ≡ true → Yields Q (f tt)) → Yields Q (guard b >>= f)
  unfolding ◌>>=◌
  guard-Yields true f h = h refl
  guard-Yields false f h = fail-Yields

chars_result :
    (allowed : ℕ → Bool) (capacity written : ℕ) (r text rest : Bytes)
    → chars allowed capacity written r ≡ some (text, rest)
    → All (λ c. (allowed c ≡ true) × (c ≢ b'"')) text
      × (0 < written + length text)
      × (0 < length text → written + length text < capacity)
unfolding chars
chars_result allowed capacity written [] text rest h = absurd (cc)
chars_result allowed capacity written (c ∷ r) text rest h =
    elim (Option-cases (chars allowed capacity (suc written) r)) [
      | inl e ↦ ground arith
      | inr ((t, r'), e) ↦ ground (arith, chars_result allowed capacity (suc written) r t r' e)
    ]

pub quoted-Yields :
    (allowed : ℕ → Bool) (capacity : ℕ) → Yields (IsText allowed capacity) (quoted allowed capacity)
unfolding quoted
quoted-Yields allowed capacity =
    >>-Yields (expect b'"') (λ _. chars allowed capacity 0)
      (λ _. record {
        result = λ r text rest h.
            let t = chars_result allowed capacity 0 r text rest h in
            (t.0, omega (arith, t.1), omega (arith, t.1, t.2 (omega (arith, t.1))));
      })

module _ {S : Type 0} (Q : S → Type 0) (member : S → Reader S)
    (keeps : (s : S) → Q s → Yields Q (member s)) where
  members-Yields : (fuel : ℕ) (s : S) → Q s → Yields Q (members member fuel s)
  unfolding members
  members-Yields zero s q = record { result = λ r a rest h. absurd (cc) }
  members-Yields (suc fuel) s q = record {
    result = λ r a rest h. elim (Option-cases (member s r)) [
      | inl e ↦ absurd (ground arith)
      | inr ((s', r'), e) ↦
          let q' = (keeps s q).result r s' r' e in
          elim (Bool-cases (consume_ b'}' r').0) [
            | inl closed ↦ let same : s' ≡ a = ground arith in rw same at q'
            | inr more ↦ elim (Option-cases (expect b',' (consume_ b'}' r').1)) [
              | inl f ↦ absurd (ground arith)
              | inr ((u, r''), f) ↦ (members-Yields fuel s' q').result r'' a rest (ground arith)
            ]
          ]
    ];
  }

  -- What every member keeps holds of the object.
  pub object-Yields : (s : S) → Q s → Yields Q (object member s)
  unfolding object
  object-Yields s q =
      >>-Yields open_ (λ _ r. members member (suc (length r)) s r)
        (λ _. record {
          result = λ r a rest h. (members-Yields (suc (length r)) s q).result r a rest h;
        })
