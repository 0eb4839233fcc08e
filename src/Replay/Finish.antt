-- ===== src/Replay/Finish.antt =====
-- inbound_replay_guard.h: the cases of `finish` and what `clear_source_session` does to each entry.
use esphome_communication_ne.Prelude.{
  ℕ, zero, suc, ◌≤◌, true, false, not, ◌&&◌, ◌||◌, some, List, [], ◌∷◌, ◌==◌, ltb, ◌≡◌, ◌⊎◌, inl,
  inr, refl, arith, if◌then◌else◌, length, get_or, set, find_index?, Option-cases, Bool-cases,
  Bytes, block, span_length,
}
use esphome_communication_ne.Replay.{
  Limits, Entry, Session, InboundReplayGuard, InboundTerminalView, empty_entry, is_same_entry,
  find_session_index_, raise_watermark, span_is_valid, with_terminal, finish, clear_entries,
}
use esphome_communication_ne.Replay.Eviction.{entry_at}

-- The entry that `finish` marks.
pub record Finishes (lim : Limits) (g : InboundReplayGuard) (source : Bytes) (boot k : ℕ)
    (command : Bytes) (r : InboundTerminalView) : Type 0 where
  pub session : ℕ
  pub index : ℕ
  pub known : find_session_index_ g source boot ≡ some session
  pub found : find_index? (is_same_entry session k command) g.entries ≡ some index
  pub open_entry : (entry_at lim g index).terminal ≡ false
  pub result :
      finish lim g (some source) boot k (block command) r
      ≡ (record g { entries = set g.entries index (with_terminal r (entry_at lim g index)) }, true)

pub finish-cases :
    (lim : Limits) (g : InboundReplayGuard) (source : Bytes) (boot k : ℕ) (command : Bytes)
    (r : InboundTerminalView)
    → (finish lim g (some source) boot k (block command) r ≡ (g, false))
      ⊎ Finishes lim g source boot k command r
unfolding finish
finish-cases lim g source boot k command r =
    elim (Bool-cases (
      length command == 0
      || ltb lim.max_command (length command)
      || ltb lim.max_terminal (span_length r.result)
      || not (span_is_valid r.result))) [
        | inl e ↦ inl (rw e refl)
        | inr e ↦ elim (Option-cases (find_session_index_ g source boot)) [
          | inl f ↦ inl (rw e (rw (f, finish) refl))
          | inr (s, f) ↦ elim (Option-cases (find_index? (is_same_entry s k command) g.entries)) [
            | inl h ↦ inl (ground arith)
            | inr (i, h) ↦ elim (Bool-cases (entry_at lim g i).terminal) [
              | inl t ↦ inl (ground arith)
              | inr t ↦ inr (record {
                session = s;
                index = i;
                known = f;
                found = h;
                open_entry = t;
                result = ground arith;
              })
            ]
          ]
        ]
      ]

-- An entry is as it was, or it was a terminal one of the session `i`, is cleared, and is covered by
-- the watermark `mark`.
abbrev pub ClearedTo : Limits → ℕ → ℕ → Entry → Entry → Type 0
ClearedTo lim i mark e e' =
    (e' ≡ e)
    ⊎ ((e.occupied ≡ true)
        × (e.terminal ≡ true)
        × (e.session_index ≡ i)
        × (e.transaction_id ≤ mark)
        × (e' ≡ empty_entry lim))

-- The session keeps its sender, and its watermark does not fall.
pub record SameSession (s s' : Session) : Type 0 where
  pub source_id : s'.source_id ≡ s.source_id
  pub source_boot_id : s'.source_boot_id ≡ s.source_boot_id
  pub occupied : s'.occupied ≡ s.occupied
  pub rises : s.retired_through ≤ s'.retired_through

pub clear_entries-SameSession :
    (lim : Limits) (i : ℕ) (es : List Entry) (s : Session)
    → SameSession s (clear_entries lim i es s).1
unfolding clear_entries
clear_entries-SameSession lim i [] s = record {
  source_id = refl;
  source_boot_id = refl;
  occupied = refl;
  rises = omega arith;
}
clear_entries-SameSession lim i (e ∷ es) s =
    let ih = clear_entries-SameSession lim i es (
      if e.occupied && e.terminal && e.session_index == i
      then raise_watermark e.transaction_id s
      else s) in
    record {
      source_id = ground (arith, ih.source_id);
      source_boot_id = ground (arith, ih.source_boot_id);
      occupied = ground (arith, ih.occupied);
      rises = ground (arith, ih.rises);
    }

pub clear_entries-ClearedTo :
    (lim : Limits) (i : ℕ) (es : List Entry) (s : Session) (j : ℕ)
    → ClearedTo lim i
        (clear_entries lim i es s).1.retired_through
        (get_or es j (empty_entry lim))
        (get_or (clear_entries lim i es s).0 j (empty_entry lim))
unfolding clear_entries
clear_entries-ClearedTo lim i [] s j = inl refl
clear_entries-ClearedTo lim i (e ∷ es) s zero =
    let next =
      if e.occupied && e.terminal && e.session_index == i
      then raise_watermark e.transaction_id s
      else s in
    let rises = (clear_entries-SameSession lim i es next).rises in
    elim (Bool-cases (e.occupied && e.terminal && e.session_index == i)) [
      | inl c ↦ inr (ground arith, ground arith, ground arith, ground (arith, rises), ground arith)
      | inr c ↦ inl (ground arith)
    ]
clear_entries-ClearedTo lim i (e ∷ es) s (suc j) =
    let next =
      if e.occupied && e.terminal && e.session_index == i
      then raise_watermark e.transaction_id s
      else s in
    let ih = clear_entries-ClearedTo lim i es next j in
    elim (Bool-cases (e.occupied && e.terminal && e.session_index == i)) [
      | inl c ↦ rw c (rw c at ih)
      | inr c ↦ rw c (rw c at ih)
    ]
