-- ===== src/Access/Instance/Answer.antt =====
-- When AuthFileInstance answers GRANTED.
use access_control.Prelude.{
  ◌≡◌, ◌≢◌, inl, inr, refl, sym, ap, ◌∙◌, true, false, ◌∷◌, ◌++◌, Option, none, some, Bytes, Memᴰ,
  codes, Failure, Result, ok, err, err_injective, Result-cases, bytes_eq, bytes_beq_iff, ◌==◌,
  Bool-cases, ◌⊎◌,
}
use access_control.Schedule.{TimePoint, Tm}
use access_control.Access.Validity.{is_valid}
use access_control.Access.Profile.{Profile}
use access_control.Access.Mapper.{Credential, ScheduleMapping, map_to_user, owner_is_valid}
use access_control.Access.Mapper.Decision.{AllLive, opens, runs}
use access_control.Access.Mapper.Grant.{concerns, granted, build_profile_decision}
use access_control.Access.Source.{Message, text, create}
use access_control.Access.Instance.{
  AuthFileInstance, AuthResult, AccessStatus, consult, target_of, authenticate, handle_auth,
  handle_bus_msg, answer, Audit, store_audit, is_caught, Outcome,
}
use access_control.Access.Instance.Failing.{success_of, Escapes, Escapes-finish, finish_cases}

different : (topic : Bytes) → topic ≢ codes "KERNEL" → (topic == codes "KERNEL") ≡ false
different topic h = elim (Bool-cases (topic == codes "KERNEL")) [
  | inl same ↦ absurd (h ((bytes_beq_iff topic (codes "KERNEL")).0 same))
  | inr other ↦ other
]

module _ (localtime : TimePoint → Tm) (serialize : Credential → Result Bytes) (audit : Audit) where
  consult_lem :
      (target : Bytes) (now : TimePoint) (c : Credential) (r : Option Profile)
      → (consult localtime serialize audit target now c r).success
        ≡ granted localtime now r (target_of target)
  consult_lem target now c none = refl
  consult_lem target now c (some p) = refl

  -- The credential that the mapper knows for what the message carries, with the reasons to let it in.
  pub record Admitted (inst : AuthFileInstance) (now : TimePoint) (msg : Message) : Type 0 where
    pub read : Credential
    pub was_read : create msg ≡ ok read
    pub log : Bytes
    pub was_logged : serialize (map_to_user inst.mapper read) ≡ ok log
    pub credential_valid : is_valid (map_to_user inst.mapper read).validity now ≡ true
    pub owner_valid : owner_is_valid (map_to_user inst.mapper read).owner now ≡ true
    pub mapping : ScheduleMapping
    pub is_mapped : Memᴰ mapping inst.mapper.mappings
    pub is_concerned : concerns inst.mapper (map_to_user inst.mapper read) mapping ≡ true
    pub is_running : runs localtime now mapping.schedule ≡ true
    pub is_opened : opens mapping (target_of inst.target_name) ≡ true

  admitted→success :
      (inst : AuthFileInstance) (now : TimePoint) (msg : Message)
      → AllLive inst.mapper.mappings
      → Admitted inst now msg
      → success_of (authenticate localtime serialize audit inst now msg) ≡ true
  unfolding authenticate
  admitted→success inst now msg live w =
      let c = map_to_user inst.mapper w.read in
      let (r, built, decision) = build_profile_decision localtime now inst.mapper c live in
      let target = target_of inst.target_name in
      let grants = (decision target).1 (
        w.credential_valid,
        w.owner_valid,
        (w.mapping, w.is_mapped, w.is_concerned, w.is_running, w.is_opened),
      ) in
      rw w.was_read (rw w.was_logged (rw built (consult_lem inst.target_name now c r ∙ grants)))

  success→admitted :
      (inst : AuthFileInstance) (now : TimePoint) (msg : Message)
      → AllLive inst.mapper.mappings
      → success_of (authenticate localtime serialize audit inst now msg) ≡ true
      → Admitted inst now msg
  unfolding authenticate
  success→admitted inst now msg live = elim (Result-cases (create msg)) [
    | inr (e, bad) ↦ rw bad (λ h. cc)
    | inl (read, good) ↦ elim (Result-cases (serialize (map_to_user inst.mapper read))) [
      | inr (e, bad) ↦ rw good (rw bad (λ h. cc))
      | inl (log, written) ↦
          let c = map_to_user inst.mapper read in
          let (r, built, decision) = build_profile_decision localtime now inst.mapper c live in
          let target = target_of inst.target_name in
          rw good (
            rw written (
              rw built (λ h.
                let (valid, owner, (m, at, about, runs_now, open_now)) =
                  (decision target).0 (sym (consult_lem inst.target_name now c r) ∙ h) in
                record {
                  read = read;
                  was_read = good;
                  log = log;
                  was_logged = written;
                  credential_valid = valid;
                  owner_valid = owner;
                  mapping = m;
                  is_mapped = at;
                  is_concerned = about;
                  is_running = runs_now;
                  is_opened = open_now;
                })))
    ]
  ]

  -- Reading the credential, or writing it to the log, or storing the event stops the process.
  abbrev pub Stops : AuthFileInstance → TimePoint → Message → Failure → Type 0
  Stops inst now msg e =
      (is_caught e ≡ false)
      × ((create msg ≡ err e)
          ⊎ (((read : Credential) × (create msg ≡ ok read)
                × (serialize (map_to_user inst.mapper read) ≡ err e))
              ⊎ ((x : Credential × AuthResult) × (authenticate localtime serialize audit inst now
                      msg
                    ≡ ok x)
                  × (store_audit audit inst.target_name x ≡ err e))))

  Stops-Escapes :
      (inst : AuthFileInstance) (now : TimePoint) (msg : Message) (e : Failure)
      → Stops inst now msg e
      → Escapes audit inst.target_name (authenticate localtime serialize audit inst now msg) e
  unfolding authenticate
  Stops-Escapes inst now msg e (loose, inl h) = (loose, inl (rw h refl))
  Stops-Escapes inst now msg e (loose, inr (inl (read, h, k))) = (loose, inl (rw h (rw k refl)))
  Stops-Escapes inst now msg e (loose, inr (inr h)) = (loose, inr h)

  failed_at :
      (inst : AuthFileInstance) (now : TimePoint) (msg : Message) (e : Failure)
      → AllLive inst.mapper.mappings
      → authenticate localtime serialize audit inst now msg ≡ err e
      → (create msg ≡ err e)
        ⊎ ((read : Credential) × (create msg ≡ ok read)
            × (serialize (map_to_user inst.mapper read) ≡ err e))
  unfolding authenticate
  failed_at inst now msg e live = elim (Result-cases (create msg)) [
    | inr (f, bad) ↦ rw bad (λ h. inl (ap err (err_injective h)))
    | inl (read, good) ↦ elim (Result-cases (serialize (map_to_user inst.mapper read))) [
      | inr (f, bad) ↦ rw good (rw bad (λ h. inr (read, refl, bad ∙ ap err (err_injective h))))
      | inl (log, written) ↦
          let c = map_to_user inst.mapper read in
          let (r, built, decision) = build_profile_decision localtime now inst.mapper c live in
          rw good (rw written (rw built (λ h. cc)))
    ]
  ]

  Escapes-Stops :
      (inst : AuthFileInstance) (now : TimePoint) (msg : Message) (e : Failure)
      → AllLive inst.mapper.mappings
      → Escapes audit inst.target_name (authenticate localtime serialize audit inst now msg) e
      → Stops inst now msg e
  Escapes-Stops inst now msg e live (loose, inr h) = (loose, inr (inr h))
  Escapes-Stops inst now msg e live (loose, inl h) = elim (failed_at inst now msg e live h) [
    | inl k ↦ (loose, inl k)
    | inr k ↦ (loose, inr (inl k))
  ]

  -- The answer that was sent, if any, with the reasons for it.
  abbrev pub IsAnswer : AuthFileInstance → TimePoint → Message → Result Outcome → Type 0
  IsAnswer inst now msg sent =
      ((sent ≡ ok (answer (codes "S_" ++ inst.name) AccessStatus.granted))
        × Admitted inst now msg
        × ((e : Failure) → ¬ Stops inst now msg e))
      ⊎ (((sent ≡ ok (answer (codes "S_" ++ inst.name) AccessStatus.denied))
            × (¬ Admitted inst now msg)
            × ((e : Failure) → ¬ Stops inst now msg e))
          ⊎ ((e : Failure) × (sent ≡ err e) × Stops inst now msg e))

  never-Stops :
      (inst : AuthFileInstance) (now : TimePoint) (msg : Message) (a : AuthResult)
      → handle_auth localtime serialize audit inst now msg ≡ ok a
      → (e : Failure) → ¬ Stops inst now msg e
  unfolding handle_auth
  never-Stops inst now msg a h e stops =
      let g = Escapes-finish audit inst.target_name _ e (Stops-Escapes inst now msg e stops) in cc

  -- Where the schedules, doors and zones that the mappings refer to are there, a message on the bus
  -- whose first frame is a text other than KERNEL is answered once, under the name of the instance:
  -- GRANTED exactly when it carries a readable credential and there is a reason to admit it, and
  -- DENIED otherwise, also after an exception and whether or not the event was stored. Only a failed
  -- assertion, or undefined behaviour, in reading or logging the credential or in storing the event
  -- leaves it without answer.
  pub handle_bus_msg-IsAnswer :
      (inst : AuthFileInstance) (now : TimePoint) (topic : Bytes) (rest : Message)
      → topic ≢ codes "KERNEL"
      → AllLive inst.mapper.mappings
      → IsAnswer inst now
          (text topic ∷ rest)
          (handle_bus_msg localtime serialize audit inst now (text topic ∷ rest))
  unfolding handle_bus_msg handle_auth
  handle_bus_msg-IsAnswer inst now topic rest other live =
      let msg = text topic ∷ rest in
      elim (finish_cases audit inst.target_name
        (authenticate localtime serialize audit inst now msg)) [
          | inr (e, stopped, escapes) ↦ inr (
              inr (
                e,
                rw (different topic other) (rw stopped refl),
                Escapes-Stops inst now msg e live escapes,
              ))
          | inl (a, done, same) ↦ elim (Bool-cases a.success) [
            | inl good ↦ inl (
              rw (different topic other) (rw done (rw good refl)),
              success→admitted inst now msg live (sym same ∙ good),
              never-Stops inst now msg a done,
            )
            | inr bad ↦ inr (
                inl (
                  rw (different topic other) (rw done (rw bad refl)),
                  λ w. let h = admitted→success inst now msg live w in cc,
                  never-Stops inst now msg a done,
                ))
          ]
        ]
