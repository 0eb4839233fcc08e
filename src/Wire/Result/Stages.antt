-- ===== src/Wire/Result/Stages.antt =====
-- mqtt_result_decoder.h: the stage that a status and an error code report, against the texts of the
-- wire format.
use esphome_communication_ne.Prelude.{
  ◌≡◌, ◌≢◌, ◌↔◌, ap, refl, true, false, Option, none, some, Bytes, arith, codes, str_eq,
  str_eq_sound, str_eq_refl, Bool-cases, Option-cases, inl, inr,
}
use esphome_communication_ne.Tracker.{
  TransactionStage, in_progress, succeeded, rejected, failed, expired, interrupted,
}
use esphome_communication_ne.Wire.Result.{
  Result, MqttResultObservation, is_interruption, stage_of, observation_of,
}

-- The texts that report a stage.
abbrev pub Reports : TransactionStage → Bytes → Option Bytes → Type 0
Reports in_progress status error = status ≡ codes "in_progress"
Reports succeeded status error = status ≡ codes "succeeded"
Reports rejected status error = status ≡ codes "rejected"
Reports failed status error = (status ≡ codes "failed") × (error ≢ some (codes "interrupted"))
Reports expired status error = status ≡ codes "expired"
Reports interrupted status error = (status ≡ codes "failed") × (error ≡ some (codes "interrupted"))

interruption_sound :
    (error : Option Bytes) → is_interruption error ≡ true → error ≡ some (codes "interrupted")
interruption_sound none h = cc
interruption_sound (some code) h = ap some (str_eq_sound code (codes "interrupted") h)

interruption_complete :
    (error : Option Bytes) → is_interruption error ≡ false → error ≢ some (codes "interrupted")
interruption_complete none h q = cc
interruption_complete (some code) h q =
    absurd (ground (arith, rw (ap is_interruption q) at h, str_eq_refl (codes "interrupted")))

module _ (status : Bytes) (error : Option Bytes) where
  stage_of_sound :
      (stage : TransactionStage) → stage_of status error ≡ some stage → Reports stage status error
  unfolding stage_of
  stage_of_sound in_progress h = ground (arith, h, str_eq_sound status (codes "in_progress"))
  stage_of_sound succeeded h = ground (arith, h, str_eq_sound status (codes "succeeded"))
  stage_of_sound rejected h = ground (arith, h, str_eq_sound status (codes "rejected"))
  stage_of_sound failed h = (
    ground (arith, h, str_eq_sound status (codes "failed")),
    interruption_complete error (ground (arith, h)),
  )
  stage_of_sound expired h = ground (arith, h, str_eq_sound status (codes "expired"))
  stage_of_sound interrupted h = (
    ground (arith, h, str_eq_sound status (codes "failed")),
    interruption_sound error (ground (arith, h)),
  )

  stage_of_complete :
      (stage : TransactionStage) → Reports stage status error → stage_of status error ≡ some stage
  unfolding stage_of str_eq
  stage_of_complete in_progress h = rw h refl
  stage_of_complete succeeded h = rw h refl
  stage_of_complete rejected h = rw h refl
  stage_of_complete failed h = rw h.0 (elim (Bool-cases (is_interruption error)) [
    | inl e ↦ absurd (h.1 (interruption_sound error e))
    | inr e ↦ rw e refl
  ])
  stage_of_complete expired h = rw h refl
  stage_of_complete interrupted h = rw (h.0, h.1) refl

-- What a result reports: its id and the stage that its texts stand for.
abbrev pub Observes : Result → MqttResultObservation → Type 0
Observes s o =
    (status : Bytes) × (s.transaction_id ≡ some o.transaction_id)
    × (s.status ≡ some status)
    × Reports o.stage status s.error

observation_of_sound :
    (s : Result) (o : MqttResultObservation) → observation_of s ≡ some o → Observes s o
unfolding observation_of
observation_of_sound s o h = elim (Option-cases s.transaction_id) [
  | inl e ↦ absurd (ground (arith, h, e))
  | inr (k, e) ↦ elim (Option-cases s.status) [
    | inl f ↦ absurd (ground (arith, h, e, f))
    | inr (status, f) ↦ elim (Option-cases (stage_of status s.error)) [
      | inl g ↦ absurd (ground (arith, h, e, f, g))
      | inr (stage, g) ↦
          let id : s.transaction_id ≡ some o.transaction_id = ground (arith, h, e, f, g) in
          let same : stage_of status s.error ≡ some o.stage = ground (arith, h, e, f, g) in
          (status, id, f, stage_of_sound status s.error o.stage same)
    ]
  ]
]

observation_of_complete :
    (s : Result) (o : MqttResultObservation) → Observes s o → observation_of s ≡ some o
unfolding observation_of
observation_of_complete s o (status, id, f, g) =
    rw (id, observation_of) (rw f (rw (stage_of_complete status s.error o.stage g) refl))

pub observation_of_iff :
    (s : Result) (o : MqttResultObservation) → (observation_of s ≡ some o) ↔ Observes s o
observation_of_iff s o = (observation_of_sound s o, observation_of_complete s o)
