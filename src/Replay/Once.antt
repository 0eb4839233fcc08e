-- ===== src/Replay/Once.antt =====
-- inbound_replay_guard.h: no transaction of a sender's session is admitted twice.
use esphome_communication_ne.Prelude.{
  ℕ, ◌+◌, ◌≤◌, Bool, true, false, ◌&&◌, Option, none, some, List, [], ◌∷◌, ◌==◌, ◌≡◌, ◌⊎◌, inl, inr,
  refl, ◌∙◌, ap, arith, if◌then◌else◌, length, length-set, length-replicate, Option-cases,
  Bool-cases, Bytes, str_eq, str_eq_iff, Span, null, block,
}
use esphome_communication_ne.Replay.{
  Limits, InboundReplayGuard, InboundDecision, InboundTerminalView, new_command, empty_session,
  empty_guard, find_session_index_, begin, finish, clear_source_session, Call, begin_call,
  finish_call, clear_call, after,
}
use esphome_communication_ne.Replay.Eviction.{Seen}
use esphome_communication_ne.Replay.Finish.{finish-cases}
use esphome_communication_ne.Replay.Seen.{begin-cases, Seen-not_new, begin-Seen_self, after-Seen}
use esphome_communication_ne.Replay.Writes.{admit_new-size}

begin-size :
    (lim : Limits) (g : InboundReplayGuard) (source : Option Bytes) (boot k : ℕ) (command : Span)
    → length (begin lim g source boot k command).0.sessions ≡ length g.sessions
begin-size lim g none boot k command = unfold begin in refl
begin-size lim g (some source) boot k (null n) = unfold begin in refl
begin-size lim g (some source) boot k (block command) =
    elim (begin-cases lim g source boot k command) [
      | inl stays ↦ ap (λ (p : InboundReplayGuard × InboundDecision). length p.0.sessions) stays.0
      | inr (s, ready, _, same) ↦
          ap (λ (p : InboundReplayGuard × InboundDecision). length p.0.sessions) same
          ∙ admit_new-size lim g s source boot k command ready
    ]

finish-size :
    (lim : Limits) (g : InboundReplayGuard) (source : Option Bytes) (boot k : ℕ) (command : Span)
    (r : InboundTerminalView)
    → length (finish lim g source boot k command r).0.sessions ≡ length g.sessions
finish-size lim g none boot k command r = unfold finish in refl
finish-size lim g (some source) boot k (null n) r = unfold finish in refl
finish-size lim g (some source) boot k (block command) r =
    elim (finish-cases lim g source boot k command r) [
      | inl e ↦ ap (λ (p : InboundReplayGuard × Bool). length p.0.sessions) e
      | inr f ↦ ap (λ (p : InboundReplayGuard × Bool). length p.0.sessions) f.result
    ]

clear-size :
    (lim : Limits) (g : InboundReplayGuard) (source : Option Bytes) (boot : ℕ)
    → length (clear_source_session lim g source boot).0.sessions ≡ length g.sessions
unfolding clear_source_session
clear-size lim g none boot = refl
clear-size lim g (some source) boot = elim (Bool-cases (boot == 0)) [
  | inl e ↦ rw e refl
  | inr e ↦ rw e (elim (Option-cases (find_session_index_ g source boot)) [
    | inl f ↦ rw (f, clear_source_session) refl
    | inr (i, f) ↦ rw (f, clear_source_session) (length-set g.sessions i _)
  ])
]

-- No call changes the size of the table of sessions.
pub after-size :
    (lim : Limits) (c : Call) (g : InboundReplayGuard)
    → length (after lim c g).sessions ≡ length g.sessions
unfolding after
after-size lim (begin_call source boot k command) g = begin-size lim g source boot k command
after-size lim (finish_call source boot k command r) g = finish-size lim g source boot k command r
after-size lim (clear_call source boot) g = clear-size lim g source boot

abbrev pub is_new : InboundDecision → Bool
is_new new_command = true
is_new _ = false

is_new-eq : (d : InboundDecision) → is_new d ≡ true → d ≡ new_command
is_new-eq new_command h = refl
is_new-eq _ h = cc

-- 1 if the call is a `begin` of this transaction and is answered `new_command`, else 0.
unfoldable pub admits : Limits → InboundReplayGuard → Call → Bytes → ℕ → ℕ → ℕ
admits lim g (begin_call (some source') boot' k' command) source boot k =
    if str_eq source' source
      && boot' == boot
      && k' == k
      && is_new (begin lim g (some source') boot' k' command).1
    then 1
    else 0
admits lim g _ source boot k = 0

-- How often a sequence of calls admits the transaction.
unfoldable pub admissions : Limits → InboundReplayGuard → List Call → Bytes → ℕ → ℕ → ℕ
unfolding admits
admissions lim g [] source boot k = 0
admissions lim g (c ∷ cs) source boot k =
    admits lim g c source boot k + admissions lim (after lim c g) cs source boot k

Seen-admits :
    (lim : Limits) (g : InboundReplayGuard) (c : Call) (source : Bytes) (boot k : ℕ)
    → Seen lim g source boot k
    → admits lim g c source boot k ≡ 0
unfolding admits
Seen-admits lim g (begin_call (some source') boot' k' command) source boot k w =
    elim (Bool-cases (str_eq source' source && boot' == boot && k' == k)) [
      | inr differs ↦ ground arith
      | inl same ↦
          let a : source' ≡ source = (str_eq_iff source' source).0 (ground arith) in
          let b : boot' ≡ boot = ground arith in
          let c : k' ≡ k = ground arith in
          rw (a, b, c) (ground (arith, Seen-not_new lim g source boot k command w))
    ]
Seen-admits lim g (begin_call none boot' k' command) source boot k w = refl
Seen-admits lim g (finish_call source' boot' k' command r) source boot k w = refl
Seen-admits lim g (clear_call source' boot') source boot k w = refl

Seen-admissions :
    (lim : Limits) (cs : List Call) (g : InboundReplayGuard) (source : Bytes) (boot k : ℕ)
    → Seen lim g source boot k
    → admissions lim g cs source boot k ≡ 0
unfolding admissions
Seen-admissions lim [] g source boot k w = refl
Seen-admissions lim (c ∷ cs) g source boot k w = omega (
  arith,
  Seen-admits lim g c source boot k w,
  Seen-admissions lim cs (after lim c g) source boot k (after-Seen lim c g source boot k w),
)

-- A call that admits the transaction leaves it seen.
admits-Seen :
    (lim : Limits) (g : InboundReplayGuard) (c : Call) (source : Bytes) (boot k : ℕ)
    → length g.sessions ≤ 16
    → (admits lim g c source boot k ≡ 0)
      ⊎ ((admits lim g c source boot k ≡ 1) × Seen lim (after lim c g) source boot k)
unfolding admits after
admits-Seen lim g (begin_call (some source') boot' k' command) source boot k small =
    elim (Bool-cases (
      str_eq source' source
      && boot' == boot
      && k' == k
      && is_new (begin lim g (some source') boot' k' command).1)) [
        | inr e ↦ inl (rw e refl)
        | inl e ↦
            let a : source' ≡ source = (str_eq_iff source' source).0 (ground arith) in
            let b : boot' ≡ boot = ground arith in
            let c : k' ≡ k = ground arith in
            inr (
              rw e refl,
              rw (← a, ← b, ← c)
                  (begin-Seen_self lim g source' boot' k' command small
                    (is_new-eq _ (ground arith))),
            )
      ]
admits-Seen lim g (begin_call none boot' k' command) source boot k small = inl refl
admits-Seen lim g (finish_call source' boot' k' command r) source boot k small = inl refl
admits-Seen lim g (clear_call source' boot') source boot k small = inl refl

admissions-le_one_from :
    (lim : Limits) (cs : List Call) (g : InboundReplayGuard) (source : Bytes) (boot k : ℕ)
    → length g.sessions ≤ 16
    → admissions lim g cs source boot k ≤ 1
unfolding admissions
admissions-le_one_from lim [] g source boot k small = omega arith
admissions-le_one_from lim (c ∷ cs) g source boot k small =
    elim (admits-Seen lim g c source boot k small) [
      | inl e ↦ omega (
        arith,
        e,
        admissions-le_one_from lim cs (after lim c g) source boot k
            (omega (arith, after-size lim c g)),
      )
      | inr (e, w) ↦ omega (arith, e, Seen-admissions lim cs (after lim c g) source boot k w)
    ]

-- From a new guard of a capacity of at most 16, no sequence of calls of `begin`, `finish` and
-- `clear_source_session`, in whatever order, with whatever arguments and over whatever transports,
-- is answered `new_command` twice for one transaction of one session of one sender.
pub admissions-le_one :
    (lim : Limits) (capacity : ℕ) (cs : List Call) (source : Bytes) (boot k : ℕ)
    → capacity ≤ 16
    → admissions lim (empty_guard lim capacity) cs source boot k ≤ 1
admissions-le_one lim capacity cs source boot k small =
    admissions-le_one_from lim cs (empty_guard lim capacity) source boot k
      (omega (arith, length-replicate capacity empty_session))
