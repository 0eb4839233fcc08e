-- ===== src/Replay/Eviction.antt =====
-- inbound_replay_guard.h: what the choice of an entry keeps of what the guard has seen.
use esphome_communication_ne.Prelude.{
  ℕ, suc, ◌+◌, ◌≤◌, ◌<◌, true, false, not, ◌&&◌, Option, none, some, List, [], ◌∷◌, ◌==◌, ltb, leb,
  ◌≡◌, ◌≢◌, ◌⊎◌, inl, inr, refl, ◌∙◌, arith, if◌then◌else◌, length, get_or, set, find_index?,
  get_or-set, find_index?-some, find_index?-set_same, length-set, Option-cases, Bool-cases, Bytes,
}
use esphome_communication_ne.Replay.{
  Limits, Entry, InboundReplayGuard, Room, room, no_room, retired, new_command, empty_entry,
  empty_session, session_at, is_session, is_entry, is_free, find_session_index_, oldest_from,
  raise_watermark, evict, find_room,
}

abbrev pub entry_at : Limits → InboundReplayGuard → ℕ → Entry
entry_at lim g j = get_or g.entries j (empty_entry lim)

pub find_session-some :
    (g : InboundReplayGuard) (source : Bytes) (boot i : ℕ)
    → find_session_index_ g source boot ≡ some i
    → (i < length g.sessions) × (is_session source boot (session_at g i) ≡ true)
unfolding find_session_index_
find_session-some g source boot i h =
    find_index?-some (is_session source boot) g.sessions i empty_session h

-- The scan returns the place that it was given, or one whose entry is terminal and occupied.
abbrev Best : (ℕ → Type 0) → Option (ℕ × ℕ) → Type 0
Best P none = Unit
Best P (some (j, s)) = P j

oldest_from-in :
    (P : ℕ → Type 0) (d : Entry) (es : List Entry) (i j : ℕ) (best : Option (ℕ × ℕ))
    → Best P best
    → ((k : ℕ)
        → k < length es
        → (get_or es k d).terminal && (get_or es k d).occupied ≡ true
        → P (i + k))
    → oldest_from i best es ≡ some j
    → P j
unfolding oldest_from
oldest_from-in P d [] i j none b h e = cc
oldest_from-in P d [] i j (some (k, s)) b h e = let k≡j : k ≡ j = cc in rw (← k≡j) b
oldest_from-in P d (x ∷ es) i j none b h e =
    oldest_from-in P d es (suc i) j _ best (λ k l t. rw (shift k) (h (suc k) (omega arith) t)) e
  where
    shift : (k : ℕ) → suc i + k ≡ i + suc k
    shift k = omega arith

    best : Best P (if x.terminal && x.occupied then some (i, x.sequence) else none)
    best = elim (Bool-cases (x.terminal && x.occupied)) [
      | inl t ↦ rw t (let z : i + 0 ≡ i = omega arith in rw z at (h 0 (omega arith) t))
      | inr t ↦ rw t tt
    ]
oldest_from-in P d (x ∷ es) i j (some (m, s)) b h e =
    oldest_from-in P d es (suc i) j _ best (λ k l t. rw (shift k) (h (suc k) (omega arith) t)) e
  where
    shift : (k : ℕ) → suc i + k ≡ i + suc k
    shift k = omega arith

    best :
        Best P (
          if x.terminal && x.occupied && ltb x.sequence s
          then some (i, x.sequence)
          else some (m, s))
    best = elim (Bool-cases (x.terminal && x.occupied && ltb x.sequence s)) [
      | inl t ↦ rw t (let z : i + 0 ≡ i = omega arith in rw z at (h 0 (omega arith) (ground arith)))
      | inr t ↦ rw t b
    ]

-- The entry that the scan picks is terminal and occupied.
pub oldest_from-some :
    (d : Entry) (es : List Entry) (j : ℕ)
    → oldest_from 0 none es ≡ some j
    → (j < length es) × ((get_or es j d).terminal && (get_or es j d).occupied ≡ true)
oldest_from-some d es j e =
    oldest_from-in
      (λ j. (j < length es) × ((get_or es j d).terminal && (get_or es j d).occupied ≡ true)) d es 0
      j none tt (λ k l t. let z : 0 + k ≡ k = omega arith in rw z (l, t)) e

-- The sender's session is in the table, and the transaction is at or below its watermark, or it
-- has an entry at an index that `P` admits.
pub record SeenWhere (lim : Limits) (P : ℕ → Type 0) (g : InboundReplayGuard) (source : Bytes)
    (boot k : ℕ) : Type 0 where
  pub session : ℕ
  pub found : find_session_index_ g source boot ≡ some session
  pub kept :
      (k ≤ (session_at g session).retired_through)
      ⊎ ((j : ℕ) × (is_entry session k (entry_at lim g j) ≡ true) × P j)

abbrev pub Anywhere : ℕ → Type 0
Anywhere j = Unit

abbrev pub Seen : Limits → InboundReplayGuard → Bytes → ℕ → ℕ → Type 0
Seen lim = SeenWhere lim Anywhere

-- The guard with a higher watermark for the session at `i`.
abbrev pub raised : InboundReplayGuard → ℕ → ℕ → InboundReplayGuard
raised g i k = record g { sessions = set g.sessions i (raise_watermark k (session_at g i)) }

pub find_session-raised :
    (g : InboundReplayGuard) (i k : ℕ) (source : Bytes) (boot : ℕ)
    → i < length g.sessions
    → find_session_index_ (raised g i k) source boot ≡ find_session_index_ g source boot
unfolding find_session_index_
find_session-raised g i k source boot l =
    find_index?-set_same (is_session source boot) g.sessions i _ empty_session (ground arith) l

-- Watermarks only rise, and the flag stays.
pub session_at-raised :
    (g : InboundReplayGuard) (i k s : ℕ)
    → i < length g.sessions
    → ((session_at g s).retired_through ≤ (session_at (raised g i k) s).retired_through)
      × (i ≡ s → k ≤ (session_at (raised g i k) s).retired_through)
      × ((session_at (raised g i k) s).occupied ≡ (session_at g s).occupied)
session_at-raised g i k s l =
    let read = get_or-set g.sessions i s (raise_watermark k (session_at g i)) empty_session l in
    elim (Bool-cases (i == s)) [
      | inl e ↦ let i≡s : i ≡ s = ground arith in rw (read, e) (rw i≡s (ground arith))
      | inr e ↦ rw (read, e) (ground arith)
    ]

-- `g'` has the entries and the sessions of `g`, and no lower watermark.
pub record Keeps (g g' : InboundReplayGuard) : Type 0 where
  pub entries : g'.entries ≡ g.entries
  pub size : length g'.sessions ≡ length g.sessions
  pub finds :
      (source : Bytes) (boot : ℕ)
      → find_session_index_ g' source boot ≡ find_session_index_ g source boot
  pub occupied : (s : ℕ) → (session_at g' s).occupied ≡ (session_at g s).occupied
  pub rises : (s : ℕ) → (session_at g s).retired_through ≤ (session_at g' s).retired_through

-- The entry is free, or terminal and covered by the watermark of its session.
abbrev pub Spare : Limits → InboundReplayGuard → ℕ → Type 0
Spare lim g i =
    ((entry_at lim g i).occupied ≡ false)
    ⊎ (((entry_at lim g i).terminal ≡ true)
        × ((entry_at lim g i).transaction_id
            ≤ (session_at g (entry_at lim g i).session_index).retired_through))

abbrev pub RoomIsSound : Limits → InboundReplayGuard → Room → Type 0
RoomIsSound lim g (room i g') = Keeps g g' × (i < length g.entries) × Spare lim g' i
RoomIsSound lim g (no_room d g') = Keeps g g' × (d ≢ new_command)

Keeps-refl : (g : InboundReplayGuard) → Keeps g g
Keeps-refl g = record {
  entries = refl;
  size = refl;
  finds = λ source boot. refl;
  occupied = λ s. refl;
  rises = λ s. omega arith;
}

raised-Keeps : (g : InboundReplayGuard) (i k : ℕ) → i < length g.sessions → Keeps g (raised g i k)
raised-Keeps g i k l = record {
  entries = refl;
  size = length-set g.sessions i _;
  finds = λ source boot. find_session-raised g i k source boot l;
  occupied = λ s. (session_at-raised g i k s l).2;
  rises = λ s. (session_at-raised g i k s l).0;
}

evict-RoomIsSound :
    (lim : Limits) (g : InboundReplayGuard) (s k i : ℕ)
    → i < length g.entries
    → (entry_at lim g i).terminal ≡ true
    → RoomIsSound lim g (evict lim g s k i)
unfolding evict
evict-RoomIsSound lim g s k i l t =
    elim (Bool-cases (leb (length g.sessions) (entry_at lim g i).session_index)) [
      | inl a ↦ rw a (Keeps-refl g, λ e. cc)
      | inr a ↦
          rw a (elim (Bool-cases (not (session_at g (entry_at lim g i).session_index).occupied)) [
            | inl b ↦ rw b (Keeps-refl g, λ e. cc)
            | inr b ↦ rw b (split (ground arith))
          ])
    ]
  where
    e : Entry
    e = entry_at lim g i

    split :
        e.session_index < length g.sessions
        → RoomIsSound lim g (
            let s' = raise_watermark e.transaction_id (session_at g e.session_index) in
            let g' : InboundReplayGuard = record g {
              sessions = set g.sessions e.session_index s';
            } in
            if e.session_index == s && leb k s'.retired_through
            then no_room retired g'
            else room i g')
    split in_range =
        let keeps = raised-Keeps g e.session_index e.transaction_id in_range in
        elim (Bool-cases (
          e.session_index == s
          && leb k
              (raise_watermark e.transaction_id (session_at g e.session_index)).retired_through)) [
                | inl c ↦ rw c (keeps, λ e. cc)
                | inr c ↦ rw c (
                  keeps,
                  l,
                  inr (
                    t,
                    (session_at-raised g e.session_index e.transaction_id e.session_index
                          in_range).1
                        refl,
                  ),
                )
              ]

-- The search for an entry never picks a pending one, and where it picks a terminal one it first
-- raises the watermark of that entry's session.
pub find_room-RoomIsSound :
    (lim : Limits) (g : InboundReplayGuard) (s k : ℕ) → RoomIsSound lim g (find_room lim g s k)
unfolding find_room
find_room-RoomIsSound lim g s k = elim (Option-cases (find_index? is_free g.entries)) [
  | inr (i, f) ↦
      rw (f, find_room)
        (let free = find_index?-some is_free g.entries i (empty_entry lim) f in
          (Keeps-refl g, free.0, inl (ground (arith, free.1))))
  | inl f ↦
      rw (f, find_room)
        (elim (Option-cases (oldest_from 0 none g.entries)) [
          | inl o ↦ rw (o, find_room) (Keeps-refl g, λ e. cc)
          | inr (i, o) ↦
              rw (o, find_room)
                (let old = oldest_from-some (empty_entry lim) g.entries i o in
                  evict-RoomIsSound lim g s k i old.0 (ground (arith, old.1)))
        ])
]

module _ (lim : Limits) {g g' : InboundReplayGuard} (source : Bytes) (boot k : ℕ) where
  pub Keeps-Seen : Keeps g g' → Seen lim g source boot k → Seen lim g' source boot k
  Keeps-Seen h w = record {
    session = w.session;
    found = h.finds source boot ∙ w.found;
    kept = elim w.kept [
      | inl low ↦ inl (omega (arith, h.rises w.session))
      | inr (j, here, _) ↦ inr (j, rw h.entries here, tt)
    ];
  }

  pub Keeps-Spare :
      (i : ℕ)
      → Keeps g g'
      → Spare lim g' i
      → Seen lim g source boot k
      → SeenWhere lim (λ j. i ≢ j) g' source boot k
  Keeps-Spare i h spare w = record {
    session = w.session;
    found = h.finds source boot ∙ w.found;
    kept = elim w.kept [
      | inl low ↦ inl (omega (arith, h.rises w.session))
      | inr (j, here, _) ↦ elim (Bool-cases (i == j)) [
        | inr other ↦ inr (j, rw h.entries here, ground arith)
        | inl same ↦
            let i≡j : i ≡ j = ground arith in
            let here' : is_entry w.session k (entry_at lim g' j) ≡ true = rw h.entries here in
            elim (rw i≡j at spare) [
              | inl free ↦ absurd (ground arith)
              | inr covered ↦ inl (ground (arith, covered.1))
            ]
      ]
    ];
  }
