-- ===== src/Wire/Result/SkipPrint.antt =====
-- `skip_` of mqtt_result_decoder.h passes over exactly one value of at most nine levels.
use esphome_communication_ne.Prelude.{
  ℕ, zero, suc, ◌-◌, ◌<◌, ◌≡◌, ◌∙◌, refl, true, false, some, ◌∷◌, length, Bytes, arith, inl, inr,
}
use esphome_communication_ne.Wire.Reader.{Reader, space_, readers}
use esphome_communication_ne.Wire.Result.Skip.{
  skip_literal, skip_from, skip_inside, skip_items, skip_levels, skip_,
}
use esphome_communication_ne.Wire.Result.Skipped.{
  count, count_members, values-length, members-length, number_from, inside_print, print-length,
  items_last, items_next, members_last, members_next,
}
use esphome_communication_ne.Wire.Result.Values.{
  true_word, false_word, null_word, Value, Values, Members, string, number, word, empty, array,
  object, end, item, done, member, Stops, IsStop, IsStop-Stops, letters-skip, number-skip, print,
  print_values, print_members, Fits, AllFit, AllFitMembers,
}

-- The reader of a value passes over `v`, wherever it stands.
abbrev Skips : ℕ → Value → Type 0
Skips levels v = (rest : Bytes) → Stops v rest → skip_levels levels (print v rest) ≡ some (tt, rest)

-- It does so before a comma, a closing bracket or a colon.
before :
    (levels : ℕ) (v : Value) (c : ℕ) (rest : Bytes)
    → Skips levels v
    → IsStop c
    → skip_levels levels (print v (c ∷ rest)) ≡ some (tt, c ∷ rest)
before levels v c rest h s = h (c ∷ rest) (IsStop-Stops v c rest s)

lower : (levels : ℕ) → suc levels - 1 ≡ levels
lower levels = omega arith

empty_object :
    (value : Reader (Unit {0})) (rest : Bytes)
    → skip_inside value true (b'}' ∷ rest) ≡ some (tt, rest)
unfolding skip_inside readers
empty_object value rest = refl

empty_array :
    (value : Reader (Unit {0})) (rest : Bytes)
    → skip_inside value false (b']' ∷ rest) ≡ some (tt, rest)
unfolding skip_inside readers
empty_array value rest = refl

mutual
  unfolding skip_levels skip_from skip_literal print print_values print_members Fits AllFit
      AllFitMembers count count_members space_

  skip-value : (v : Value) (levels : ℕ) → Fits v levels → Skips levels v
  skip-value (string ls) zero h rest s = absurd (omega arith)
  skip-value (string ls) (suc l) h rest s = letters-skip ls rest h.0
  skip-value (number negative whole part) zero h rest s = absurd (omega arith)
  skip-value (number negative whole part) (suc l) h rest s =
      number_from (skip_inside (skip_levels l)) negative whole part rest h.0
      ∙ number-skip negative whole part rest h.0 h.1 s
  skip-value (word w) zero h rest s = absurd (omega arith)
  skip-value (word true_word) (suc l) h rest s = refl
  skip-value (word false_word) (suc l) h rest s = refl
  skip-value (word null_word) (suc l) h rest s = refl
  skip-value (empty b) zero h rest s = absurd (omega arith)
  skip-value (empty true) (suc l) h rest s = empty_object (skip_levels l) rest
  skip-value (empty false) (suc l) h rest s = empty_array (skip_levels l) rest
  skip-value (array v vs) zero h rest s = absurd (omega arith)
  skip-value (array v vs) (suc l) h rest s =
      let first = rw (lower l) at h.1 in
      let others = rw (lower l) at h.2 in
      inside_print (skip_levels l) false v l (print_values vs rest) first
      ∙ skip-items vs v l (suc (length (print v (print_values vs rest)))) rest
          (skip-value v l first) others
          (omega (arith, print-length v (print_values vs rest), values-length vs rest))
  skip-value (object k v ms) zero h rest s = absurd (omega arith)
  skip-value (object k v ms) (suc l) h rest s =
      let key = rw (lower l) at h.1 in
      let first = rw (lower l) at h.2 in
      let others = rw (lower l) at h.3 in
      let tail = print v (print_members ms rest) in
      inside_print (skip_levels l) true k l (b':' ∷ tail) key
      ∙ skip-members ms k v l (suc (length (print k (b':' ∷ tail)))) rest (skip-value k l key)
          (skip-value v l first) others
          (omega (
            arith,
            print-length k (b':' ∷ tail),
            print-length v (print_members ms rest),
            members-length ms rest,
          ))

  skip-items :
      (vs : Values) (v : Value) (levels fuel : ℕ) (rest : Bytes)
      → Skips levels v
      → AllFit vs levels
      → count vs < fuel
      → skip_items (skip_levels levels) fuel false (print v (print_values vs rest))
        ≡ some (tt, rest)
  skip-items end v levels zero rest head h b = elim b [ ]
  skip-items end v levels (suc fuel) rest head h b =
      items_last (skip_levels levels) fuel (print v (b']' ∷ rest)) rest
        (before levels v b']' rest head (inr (inr (inl refl))))
  skip-items (item w vs) v levels zero rest head h b = elim b [ ]
  skip-items (item w vs) v levels (suc fuel) rest head h b =
      items_next (skip_levels levels) fuel (print v (b',' ∷ print w (print_values vs rest)))
        (print w (print_values vs rest))
        (before levels v b',' (print w (print_values vs rest)) head (inl refl))
      ∙ skip-items vs w levels fuel rest (skip-value w levels h.0) h.1 (omega arith)

  skip-members :
      (ms : Members) (k v : Value) (levels fuel : ℕ) (rest : Bytes)
      → Skips levels k
      → Skips levels v
      → AllFitMembers ms levels
      → count_members ms < fuel
      → skip_items (skip_levels levels) fuel true (print k (b':' ∷ print v (print_members ms rest)))
        ≡ some (tt, rest)
  skip-members done k v levels zero rest key head h b = elim b [ ]
  skip-members done k v levels (suc fuel) rest key head h b =
      members_last (skip_levels levels) fuel (print k (b':' ∷ print v (b'}' ∷ rest)))
        (print v (b'}' ∷ rest)) rest
        (before levels k b':' (print v (b'}' ∷ rest)) key (inr (inr (inr refl))))
        (before levels v b'}' rest head (inr (inl refl)))
  skip-members (member j w ms) k v levels zero rest key head h b = elim b [ ]
  skip-members (member j w ms) k v levels (suc fuel) rest key head h b =
      let next = print j (b':' ∷ print w (print_members ms rest)) in
      members_next (skip_levels levels) fuel (print k (b':' ∷ print v (b',' ∷ next)))
        (print v (b',' ∷ next)) next
        (before levels k b':' (print v (b',' ∷ next)) key (inr (inr (inr refl))))
        (before levels v b',' next head (inl refl))
      ∙ skip-members ms j w levels fuel rest (skip-value j levels h.0) (skip-value w levels h.1) h.2
          (omega arith)

-- A value that is printed, nested nine levels deep at most, is passed over exactly. Its strings are
-- of bytes from 0x20 on and of the escapes that the code takes, its numbers have no exponent, and
-- its keys are values of any kind. Anything or nothing may stand behind it, but for a number: behind
-- a number stands no digit, and no point where it has no fraction.
pub skip-print :
    (v : Value) (rest : Bytes) → Fits v 9 → Stops v rest → skip_ (print v rest) ≡ some (tt, rest)
unfolding skip_
skip-print v rest h s = skip-value v 9 h rest s
