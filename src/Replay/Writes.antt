-- ===== src/Replay/Writes.antt =====
-- inbound_replay_guard.h: the writes of `begin`, and what they keep of what the guard has seen.
use esphome_communication_ne.Prelude.{
  ℕ, ◌^◌, ◌<◌, true, false, ◌&&◌, none, some, ◌==◌, ◌≡◌, ◌≢◌, ◌⊎◌, inl, inr, refl, ◌∙◌, ap, arith,
  length, get_or-set, get_or-set_self, get_or-set_ne, find_index?-set_same, find_index?-set_new,
  length-set, Bool-cases, Bytes, str_eq, str_eq_iff, str_eq_refl,
}
use esphome_communication_ne.Replay.{
  Limits, Entry, InboundReplayGuard, InboundDecision, Room, room, no_room, new_command, empty_entry,
  empty_session, session_at, is_session, find_session_index_, find_room, write_session, write_entry,
  admit_new,
}
use esphome_communication_ne.Replay.Eviction.{
  find_session-some, SeenWhere, Seen, Keeps, RoomIsSound, find_room-RoomIsSound, Keeps-Seen,
  Keeps-Spare,
}

-- The session at `s` is the sender's, or is free for a sender that has none.
abbrev pub Ready : InboundReplayGuard → ℕ → Bytes → ℕ → Type 0
Ready g s source boot =
    (find_session_index_ g source boot ≡ some s)
    ⊎ ((find_session_index_ g source boot ≡ none)
        × ((session_at g s).occupied ≡ false)
        × (s < length g.sessions))

Keeps-Ready :
    {g g' : InboundReplayGuard} (s : ℕ) (source : Bytes) (boot : ℕ)
    → Keeps g g'
    → Ready g s source boot
    → Ready g' s source boot
Keeps-Ready s source boot h (inl f) = inl (h.finds source boot ∙ f)
Keeps-Ready s source boot h (inr (f, o, l)) =
    inr (h.finds source boot ∙ f, h.occupied s ∙ o, omega (arith, h.size))

-- The write of the session makes the sender known, and every other sender is found where it was.
record Knows (g g' : InboundReplayGuard) (s : ℕ) (source : Bytes) (boot : ℕ) : Type 0 where
  entries : g'.entries ≡ g.entries
  size : length g'.sessions ≡ length g.sessions
  self : find_session_index_ g' source boot ≡ some s
  others :
      (a : Bytes) (b i : ℕ)
      → find_session_index_ g a b ≡ some i
      → find_session_index_ g' a b ≡ some i
  marks : (i : ℕ) → (session_at g' i).retired_through ≡ (session_at g i).retired_through

write_session-Knows :
    (g : InboundReplayGuard) (s : ℕ) (source : Bytes) (boot : ℕ)
    → Ready g s source boot
    → Knows g (write_session g s source boot) s source boot
write_session-Knows g s source boot (inl f) =
    let occupied : (session_at g s).occupied ≡ true =
      ground (arith, find_session-some g source boot s f) in
    unfold write_session in
    rw occupied
      (record { entries = refl; size = refl; self = f; others = λ a b i h. h; marks = λ i. refl })
write_session-Knows g s source boot (inr (f, free, l)) =
    unfold write_session in
    rw free (record {
      entries = refl;
      size = length-set g.sessions s _;
      self =
          unfold find_session_index_ in
          find_index?-set_new (is_session source boot) g.sessions s _ f
            (ground (arith, str_eq_refl source)) l;
      others = λ a b i h.
          unfold find_session_index_ in
          (find_index?-set_same (is_session a b) g.sessions s _ empty_session (other a b i h) l
            ∙ h);
      marks = λ i. ground (
        arith,
        get_or-set g.sessions s i
            (record (session_at g s) { source_id = source; source_boot_id = boot; occupied = true })
            empty_session l,
      );
    })
  where
    other :
        (a : Bytes) (b i : ℕ)
        → find_session_index_ g a b ≡ some i
        → is_session a b
            (record (session_at g s) { source_id = source; source_boot_id = boot; occupied = true })
          ≡ is_session a b (session_at g s)
    other a b i h = elim (Bool-cases (boot == b && str_eq source a)) [
      | inr differs ↦ ground arith
      | inl same ↦
          let a≡ : source ≡ a = (str_eq_iff source a).0 (ground arith) in
          let b≡ : boot ≡ b = ground arith in absurd (ground (arith, rw (← a≡, ← b≡) at h))
    ]

module _ (lim : Limits) (g : InboundReplayGuard) where
  -- The new entry overwrites no entry that still counts.
  write_entry-Seen :
      (i s t : ℕ) (command source : Bytes) (boot k : ℕ)
      → SeenWhere lim (λ j. i ≢ j) g source boot k
      → Seen lim (write_entry lim g i s t command) source boot k
  unfolding write_entry find_session_index_
  write_entry-Seen i s t command source boot k w = record {
    session = w.session;
    found = w.found;
    kept = elim w.kept [
      | inl low ↦ inl low
      | inr (j, here, other) ↦
          inr (j, rw (get_or-set_ne g.entries i j _ (empty_entry lim) other) here, tt)
    ];
  }

  -- The new entry stands for its transaction.
  write_entry-Seen_self :
      (i s : ℕ) (command source : Bytes) (boot k : ℕ)
      → find_session_index_ g source boot ≡ some s
      → i < length g.entries
      → s < 2 ^ 8
      → Seen lim (write_entry lim g i s k command) source boot k
  unfolding write_entry find_session_index_
  write_entry-Seen_self i s command source boot k f l small = record {
    session = s;
    found = f;
    kept = inr (i, rw (get_or-set_self g.entries i _ (empty_entry lim) l) (ground arith), tt);
  }

module _ (lim : Limits) {g g' : InboundReplayGuard} where
  Knows-SeenWhere :
      {P : ℕ → Type 0} (s : ℕ) (source' : Bytes) (boot' : ℕ) (source : Bytes) (boot k : ℕ)
      → Knows g g' s source' boot'
      → SeenWhere lim P g source boot k
      → SeenWhere lim P g' source boot k
  Knows-SeenWhere s source' boot' source boot k h w = record {
    session = w.session;
    found = h.others source boot w.session w.found;
    kept = elim w.kept [
      | inl low ↦ inl (rw (h.marks w.session) low)
      | inr (j, here, p) ↦ inr (j, rw h.entries here, p)
    ];
  }

module _ (lim : Limits) (g : InboundReplayGuard) (s : ℕ) (source' : Bytes) (boot' k' : ℕ)
    (command : Bytes) where
  -- What was seen before an admission is seen after it.
  pub admit_new-Seen :
      (source : Bytes) (boot k : ℕ)
      → Ready g s source' boot'
      → Seen lim g source boot k
      → Seen lim (admit_new lim g s source' boot' k' command).0 source boot k
  unfolding admit_new
  admit_new-Seen source boot k ready w =
      go (find_room lim g s k') (find_room-RoomIsSound lim g s k')
    where
      go :
          (r : Room)
          → RoomIsSound lim g r
          → Seen lim
              (elim r as (λ _. InboundReplayGuard × InboundDecision) [
                | no_room d g₁ ↦ (g₁, d)
                | room i g₁ ↦
                    (write_entry lim (write_session g₁ s source' boot') i s k' command, new_command)
              ]).0
              source
              boot
              k
      go (no_room d g₁) (keeps, _) = Keeps-Seen lim source boot k keeps w
      go (room i g₁) (keeps, l, spare) =
          let knows =
            write_session-Knows g₁ s source' boot' (Keeps-Ready s source' boot' keeps ready) in
          write_entry-Seen lim (write_session g₁ s source' boot') i s k' command source boot k (
            Knows-SeenWhere lim s source' boot' source boot k knows
              (Keeps-Spare lim source boot k i keeps spare w))

  -- What is admitted is seen.
  pub admit_new-Seen_self :
      Ready g s source' boot'
      → s < 2 ^ 8
      → (admit_new lim g s source' boot' k' command).1 ≡ new_command
      → Seen lim (admit_new lim g s source' boot' k' command).0 source' boot' k'
  unfolding admit_new
  admit_new-Seen_self ready small = go (find_room lim g s k') (find_room-RoomIsSound lim g s k')
    where
      go :
          (r : Room)
          → RoomIsSound lim g r
          → (elim r as (λ _. InboundReplayGuard × InboundDecision) [
            | no_room d g₁ ↦ (g₁, d)
            | room i g₁ ↦
                (write_entry lim (write_session g₁ s source' boot') i s k' command, new_command)
          ]).1
            ≡ new_command
          → Seen lim
              (elim r as (λ _. InboundReplayGuard × InboundDecision) [
                | no_room d g₁ ↦ (g₁, d)
                | room i g₁ ↦
                    (write_entry lim (write_session g₁ s source' boot') i s k' command, new_command)
              ]).0
              source'
              boot'
              k'
      go (no_room d g₁) (keeps, refuses) e = absurd (refuses e)
      go (room i g₁) (keeps, l, spare) e =
          let knows =
            write_session-Knows g₁ s source' boot' (Keeps-Ready s source' boot' keeps ready) in
          write_entry-Seen_self lim (write_session g₁ s source' boot') i s command source' boot' k'
            knows.self
            (omega
              (arith, ap (length {A = Entry}) knows.entries, ap (length {A = Entry}) keeps.entries))
            small

  -- An admission leaves the size of the table.
  pub admit_new-size :
      Ready g s source' boot'
      → length (admit_new lim g s source' boot' k' command).0.sessions ≡ length g.sessions
  unfolding admit_new write_entry
  admit_new-size ready = go (find_room lim g s k') (find_room-RoomIsSound lim g s k')
    where
      go :
          (r : Room)
          → RoomIsSound lim g r
          → length
              (elim r as (λ _. InboundReplayGuard × InboundDecision) [
                | no_room d g₁ ↦ (g₁, d)
                | room i g₁ ↦
                    (write_entry lim (write_session g₁ s source' boot') i s k' command, new_command)
              ]).0.sessions
            ≡ length g.sessions
      go (no_room d g₁) (keeps, _) = keeps.size
      go (room i g₁) (keeps, _, _) =
          (write_session-Knows g₁ s source' boot' (Keeps-Ready s source' boot' keeps ready)).size
          ∙ keeps.size
