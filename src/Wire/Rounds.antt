-- ===== src/Wire/Rounds.antt =====
-- mqtt_envelope_decoder.h and mqtt_result_decoder.h: the loop over the members of an object as its
-- rounds, with no fuel.
use esphome_communication_ne.Prelude.{
  ℕ, zero, suc, ◌<◌, ◌≡◌, ◌↔◌, refl, true, false, Option, none, some, length, Bytes, arith,
  Bool-cases, Option-cases, inl, inr,
}
use esphome_communication_ne.Wire.Reader.{Reader, consume_, expect, members}
use esphome_communication_ne.Wire.Shrinks.{Shrinks, expect-Shrinks, consume-le}

-- `do { member; if (consume_('}')) break; if (!consume_(',')) return false; } while (true)`, from
-- the state `s` and the rest `r` on, ends with this outcome: none where it returns false.
pub data Rounds {S : Type 0} (member : S → Reader S) : S → Bytes → Option (S × Bytes) → Type 0 where
  refused : {s : S} {r : Bytes} → member s r ≡ none → Rounds member s r none
  closed :
      {s s' : S} {r r' : Bytes}
      → member s r ≡ some (s', r')
      → (consume_ b'}' r').0 ≡ true
      → Rounds member s r (some (s', (consume_ b'}' r').1))
  stray :
      {s s' : S} {r r' : Bytes}
      → member s r ≡ some (s', r')
      → (consume_ b'}' r').0 ≡ false
      → expect b',' (consume_ b'}' r').1 ≡ none
      → Rounds member s r none
  next :
      {s s' : S} {r r' r'' : Bytes} {u : Unit {0}} {o : Option (S × Bytes)}
      → member s r ≡ some (s', r')
      → (consume_ b'}' r').0 ≡ false
      → expect b',' (consume_ b'}' r').1 ≡ some (u, r'')
      → Rounds member s' r'' o
      → Rounds member s r o

-- The loop ends, and with what `members` gives.
abbrev pub Ends : {S : Type 0} → (S → Reader S) → S → Bytes → Type 0
Ends {S} member s r =
    (o : Option (S × Bytes)) → Rounds member s r o ↔ (members member (suc (length r)) s r ≡ o)

module _ {S : Type 0} (member : S → Reader S) (shrinks : (s : S) → Shrinks (member s)) where
  Rounds-members :
      (f : ℕ) (s : S) (r : Bytes) → length r < f → Rounds member s r (members member f s r)
  unfolding members
  Rounds-members zero s r h = absurd (omega arith)
  Rounds-members (suc f) s r h = elim (Option-cases (member s r)) [
    | inl e ↦ rw (e, members) (refused e)
    | inr ((s', r'), e) ↦ elim (Bool-cases (consume_ b'}' r').0) [
      | inl c ↦ rw (e, members) (rw c (closed e c))
      | inr c ↦ elim (Option-cases (expect b',' (consume_ b'}' r').1)) [
        | inl x ↦ rw (e, members) (rw c (rw x (stray e c x)))
        | inr ((u, r''), x) ↦
            rw (e, members)
              (rw c (
                rw x (
                  next e c x (
                    Rounds-members f s' r'' (
                      omega (
                        arith,
                        h,
                        (shrinks s).fewer r s' r' e,
                        consume-le b'}' r',
                        (expect-Shrinks b',').fewer (consume_ b'}' r').1 u r'' x,
                      ))))))
      ]
    ]
  ]

  members-Rounds :
      (f : ℕ) {s : S} {r : Bytes} {o : Option (S × Bytes)}
      → Rounds member s r o
      → length r < f
      → members member f s r ≡ o
  unfolding members
  members-Rounds zero k h = absurd (omega arith)
  members-Rounds (suc f) (refused e) h = rw (e, members) refl
  members-Rounds (suc f) (closed e c) h = rw (e, members) (rw c refl)
  members-Rounds (suc f) (stray e c x) h = rw (e, members) (rw c (rw x refl))
  members-Rounds (suc f) (next {s} {s'} {r} {r'} {r''} {u} e c x k) h =
      rw (e, members)
        (rw c (
          rw x (
            members-Rounds f k (
              omega (
                arith,
                h,
                (shrinks s).fewer r s' r' e,
                consume-le b'}' r',
                (expect-Shrinks b',').fewer (consume_ b'}' r').1 u r'' x,
              )))))

  pub members-Ends : (s : S) (r : Bytes) → Ends member s r
  members-Ends s r o = (
    λ k. members-Rounds (suc (length r)) k (omega arith),
    λ e. rw e at (Rounds-members (suc (length r)) s r (omega arith)),
  )
