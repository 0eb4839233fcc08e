-- ===== src/Replay/Seen.antt =====
-- inbound_replay_guard.h: what the guard has seen, it remembers over every call.
use esphome_communication_ne.Prelude.{
  ℕ, ◌≤◌, ◌<◌, not, ◌||◌, Option, none, some, ◌==◌, ltb, leb, ◌≡◌, ◌≢◌, ◌⊎◌, inl, inr, refl, ◌∙◌,
  arith, if◌then◌else◌, length, set, find_index?, get_or-set, find_index?-some, find_index?-none_at,
  find_index?-set_same, Option-cases, Bool-cases, Bytes, Span, null, block,
}
use esphome_communication_ne.Replay.{
  Limits, Session, InboundReplayGuard, InboundTerminalView, new_command, empty_entry, empty_session,
  session_at, is_session, is_entry, is_same_entry, find_session_index_, bounded_length_, admit_new,
  begin_known, begin_unknown, begin_valid, begin, with_terminal, finish, clear_entries,
  clear_source_session, Call, begin_call, finish_call, clear_call, after,
}
use esphome_communication_ne.Replay.Eviction.{entry_at, find_session-some, Seen}
use esphome_communication_ne.Replay.Finish.{
  finish-cases, SameSession, clear_entries-SameSession, clear_entries-ClearedTo,
}
use esphome_communication_ne.Replay.Writes.{Ready, admit_new-Seen, admit_new-Seen_self}

module _ (lim : Limits) (g : InboundReplayGuard) (source' : Bytes) (boot' k' : ℕ)
    (command : Bytes) where
  -- The session that `begin` settles on, or the reason why it does not get to the entries.
  begin_valid-cases :
      (begin_valid lim g source' boot' k' command
          ≡ (g, (begin_valid lim g source' boot' k' command).1)
        × ((begin_valid lim g source' boot' k' command).1 ≢ new_command))
      ⊎ ((s : ℕ) × Ready g s source' boot'
          × (s < length g.sessions)
          × (begin_valid lim g source' boot' k' command
              ≡ admit_new lim g s source' boot' k' command))
  unfolding begin_valid begin_known begin_unknown
  begin_valid-cases = elim (Option-cases (find_session_index_ g source' boot')) [
    | inr (s, f) ↦
        rw (f, begin_valid)
          (elim (Option-cases (find_index? (is_entry s k') g.entries)) [
            | inr (i, e) ↦ rw (e, begin_known) (inl (refl, ground arith))
            | inl e ↦
                rw (e, begin_known)
                  (elim (Bool-cases (leb k' (session_at g s).retired_through)) [
                    | inl low ↦ rw low (inl (refl, λ p. cc))
                    | inr high ↦
                        rw high (inr (s, inl refl, (find_session-some g source' boot' s f).0, refl))
                  ])
          ])
    | inl f ↦
        rw (f, begin_valid)
          (elim (Option-cases (find_index? (λ (s : Session). not s.occupied) g.sessions)) [
            | inl e ↦ rw (e, begin_unknown) (inl (refl, λ p. cc))
            | inr (i, e) ↦
                let free =
                  find_index?-some (λ (s : Session). not s.occupied) g.sessions i empty_session e in
                rw (e, begin_unknown)
                  (inr (i, inr (refl, ground (arith, free.1), free.0), free.0, refl))
          ])
  ]

  -- The same for `begin`, for a command in bytes.
  pub begin-cases :
      (begin lim g (some source') boot' k' (block command)
          ≡ (g, (begin lim g (some source') boot' k' (block command)).1)
        × ((begin lim g (some source') boot' k' (block command)).1 ≢ new_command))
      ⊎ ((s : ℕ) × Ready g s source' boot'
          × (s < length g.sessions)
          × (begin lim g (some source') boot' k' (block command)
              ≡ admit_new lim g s source' boot' k' command))
  unfolding begin
  begin-cases =
      elim (Bool-cases (
        boot' == 0
        || k' == 0
        || length command == 0
        || ltb lim.max_command (length command)
        || bounded_length_ lim source' == 0
        || ltb lim.max_source (bounded_length_ lim source'))) [
          | inl e ↦ rw e (inl (refl, λ p. cc))
          | inr e ↦ rw e begin_valid-cases
        ]

-- A transaction that the guard has seen is not new.
pub Seen-not_new :
    (lim : Limits) (g : InboundReplayGuard) (source : Bytes) (boot k : ℕ) (command : Span)
    → Seen lim g source boot k
    → (begin lim g (some source) boot k command).1 ≢ new_command
unfolding begin begin_valid begin_known
Seen-not_new lim g source boot k (null n) w e = cc
Seen-not_new lim g source boot k (block command) w e =
    elim (Option-cases (find_index? (is_entry w.session k) g.entries)) [
      | inr (i, f) ↦ ground (arith, w.found)
      | inl f ↦ elim w.kept [
        | inl low ↦ ground (arith, w.found)
        | inr (j, here, _) ↦ ground (
          arith,
          here,
          find_index?-none_at (is_entry w.session k) g.entries j (empty_entry lim) f,
        )
      ]
    ]

begin-Seen :
    (lim : Limits) (g : InboundReplayGuard) (source' : Option Bytes) (boot' k' : ℕ) (command : Span)
    (source : Bytes) (boot k : ℕ)
    → Seen lim g source boot k
    → Seen lim (begin lim g source' boot' k' command).0 source boot k
begin-Seen lim g none boot' k' command source boot k w = unfold begin in w
begin-Seen lim g (some source') boot' k' (null n) source boot k w = unfold begin in w
begin-Seen lim g (some source') boot' k' (block command) source boot k w =
    elim (begin-cases lim g source' boot' k' command) [
      | inl stays ↦ rw (stays.0) w
      | inr (s, ready, _, same) ↦
          rw same (admit_new-Seen lim g s source' boot' k' command source boot k ready w)
    ]

-- What is admitted is seen from then on.
pub begin-Seen_self :
    (lim : Limits) (g : InboundReplayGuard) (source : Bytes) (boot k : ℕ) (command : Span)
    → length g.sessions ≤ 16
    → (begin lim g (some source) boot k command).1 ≡ new_command
    → Seen lim (begin lim g (some source) boot k command).0 source boot k
begin-Seen_self lim g source boot k (null n) small e = unfold begin in cc
begin-Seen_self lim g source boot k (block command) small e =
    elim (begin-cases lim g source boot k command) [
      | inl stays ↦ absurd (stays.1 e)
      | inr (s, ready, l, same) ↦
          rw same
            (admit_new-Seen_self lim g s source boot k command ready (omega arith) (rw same at e))
    ]

finish-Seen :
    (lim : Limits) (g : InboundReplayGuard) (source' : Option Bytes) (boot' k' : ℕ) (command : Span)
    (r : InboundTerminalView) (source : Bytes) (boot k : ℕ)
    → Seen lim g source boot k
    → Seen lim (finish lim g source' boot' k' command r).0 source boot k
finish-Seen lim g none boot' k' command r source boot k w = unfold finish in w
finish-Seen lim g (some source') boot' k' (null n) r source boot k w = unfold finish in w
finish-Seen lim g (some source') boot' k' (block command) r source boot k w =
    elim (finish-cases lim g source' boot' k' command r) [
      | inl e ↦ rw e w
      | inr f ↦ rw f.result (record {
        session = w.session;
        found = unfold find_session_index_ in w.found;
        kept = elim w.kept [
          | inl low ↦ inl low
          | inr (j, here, _) ↦
              let in_table =
                (find_index?-some (is_same_entry f.session k' command) g.entries f.index
                  (empty_entry lim) f.found).0 in
              let read =
                get_or-set g.entries f.index j (with_terminal r (entry_at lim g f.index))
                  (empty_entry lim) in_table in
              inr (j, ground (arith, read, here), tt)
        ];
      })
    ]

-- The guard after the loop of `clear_source_session` for the session at `i`.
abbrev cleared : Limits → InboundReplayGuard → ℕ → InboundReplayGuard
cleared lim g i = record g {
  entries = (clear_entries lim i g.entries (session_at g i)).0;
  sessions = set g.sessions i (clear_entries lim i g.entries (session_at g i)).1;
}

cleared-Seen :
    (lim : Limits) (g : InboundReplayGuard) (i : ℕ) (source : Bytes) (boot k : ℕ)
    → i < length g.sessions
    → Seen lim g source boot k
    → Seen lim (cleared lim g i) source boot k
cleared-Seen lim g i source boot k l w = record {
  session = w.session;
  found =
      unfold find_session_index_ in
      (find_index?-set_same (is_session source boot) g.sessions i _ empty_session
          (ground (arith, same.source_id, same.source_boot_id, same.occupied)) l
        ∙ w.found);
  kept = elim w.kept [
    | inl low ↦ inl (ground (arith, same.rises, read))
    | inr (j, here, _) ↦ elim (clear_entries-ClearedTo lim i g.entries (session_at g i) j) [
      | inl stays ↦ inr (j, rw stays here, tt)
      | inr gone ↦ inl (ground (arith, gone, read, here))
    ]
  ];
}
  where
    same : SameSession (session_at g i) (clear_entries lim i g.entries (session_at g i)).1
    same = clear_entries-SameSession lim i g.entries (session_at g i)

    read : session_at (cleared lim g i) w.session ≡ (
        if i == w.session
        then (clear_entries lim i g.entries (session_at g i)).1
        else session_at g w.session)
    read = get_or-set g.sessions i w.session _ empty_session l

clear-Seen :
    (lim : Limits) (g : InboundReplayGuard) (source' : Option Bytes) (boot' : ℕ) (source : Bytes)
    (boot k : ℕ)
    → Seen lim g source boot k
    → Seen lim (clear_source_session lim g source' boot').0 source boot k
unfolding clear_source_session
clear-Seen lim g none boot' source boot k w = w
clear-Seen lim g (some source') boot' source boot k w = elim (Bool-cases (boot' == 0)) [
  | inl e ↦ rw e w
  | inr e ↦ rw e (elim (Option-cases (find_session_index_ g source' boot')) [
    | inl f ↦ rw (f, clear_source_session) w
    | inr (i, f) ↦
        rw (f, clear_source_session)
          (cleared-Seen lim g i source boot k (find_session-some g source' boot' i f).0 w)
  ])
]

pub after-Seen :
    (lim : Limits) (c : Call) (g : InboundReplayGuard) (source : Bytes) (boot k : ℕ)
    → Seen lim g source boot k
    → Seen lim (after lim c g) source boot k
unfolding after
after-Seen lim (begin_call source' boot' k' command) g source boot k w =
    begin-Seen lim g source' boot' k' command source boot k w
after-Seen lim (finish_call source' boot' k' command r) g source boot k w =
    finish-Seen lim g source' boot' k' command r source boot k w
after-Seen lim (clear_call source' boot') g source boot k w =
    clear-Seen lim g source' boot' source boot k w
