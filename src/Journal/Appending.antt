-- ===== src/Journal/Appending.antt =====
-- journal.go: the log file only grows, and an event that is acknowledged is in it.
use text.Mathlib.TextLemmas.{append-nil, append_assoc}
use drones.Common.{
  String, append, true, Option, none, some, List, [], ◌∷◌, ◌≡◌, refl, sym, ap, ◌∙◌, ◌⊎◌, inl, inr,
  Bool-cases, Option-cases, arith,
}
use drones.Message.{Fields, Value, bool, only, get_string, get_map}
use drones.Bus.{Result, Env, Run, M, pure, now_text, ◌>>◌}
use drones.Component.{is_trusted_sender}
use drones.Analytics.{Http}
use drones.Journal.{
  Journal, Disk, refused, record_of, line_of, source_of, or_default, post_analytics_event,
  write_line, append_line, log_payload, handle_log_event, forward, handle_post_telemetry,
}

-- a message to the journal, with what the file system and the analytics service do meanwhile
pub data Input (F : Type 0) : Type 0 where
  log_event : Disk → Http → Fields F → Input F
  post_telemetry : Http → Fields F → Input F

module _ {F L : Type 0} (marshal : Value F → Result String) (decode : Value F → Option L) where
  unfoldable pub react : Input F → M F (Journal F L) (Unit {0})
  react (log_event disk http m) = handle_log_event marshal disk http m >> pure tt
  react (post_telemetry http m) = handle_post_telemetry decode http m >> pure tt

  unfoldable pub journey : List (Input F) → M F (Journal F L) (Unit {0})
  journey [] = pure tt
  journey (i ∷ is) = react i >> journey is

module _ {F L : Type 0} (env : Env F (Journal F L)) where
  -- What an action leaves of the file: all of it, with something after it.
  abbrev Grows : {A : Type 0} → M F (Journal F L) A → Run F (Journal F L) → Type 0
  Grows m r = (t : String) × ((m env r).1.state.file ≡ append r.state.file t)

  abbrev Keeps : {A : Type 0} → M F (Journal F L) A → Run F (Journal F L) → Type 0
  Keeps m r = (m env r).1.state.file ≡ r.state.file

  grown : {A : Type 0} (m : M F (Journal F L) A) (r : Run F (Journal F L)) → Keeps m r → Grows m r
  grown m r h = ("", h ∙ sym (append-nil r.state.file))

  forward-Keeps :
      (decode : Value F → Option L) (http : Http) (o : Option L) (r : Run F (Journal F L))
      → Keeps (forward decode http o) r
  unfolding forward
  forward-Keeps decode http none r = refl
  forward-Keeps decode http (some item) r = refl

  post_telemetry-Keeps :
      (decode : Value F → Option L) (http : Http) (m : Fields F) (r : Run F (Journal F L))
      → Keeps (handle_post_telemetry decode http m) r
  unfolding handle_post_telemetry forward
  post_telemetry-Keeps decode http m r = ground arith

module _ {F L : Type 0} (marshal : Value F → Result String) (env : Env F (Journal F L)) where
  post_event-Keeps :
      (http : Http) (source event : String) (payload : Fields F) (r : Run F (Journal F L))
      → Keeps env (post_analytics_event marshal http source event payload) r
  unfolding post_analytics_event
  post_event-Keeps http source event payload r = ground arith

  abbrev acknowledged : Option (Fields F)
  acknowledged = some (only "ok" (bool true))

  -- Either the line is in the file and the event is acknowledged, or it is refused, with no more in
  -- the file than a part of the line.
  abbrev Outcome : Disk → String → Option (Fields F) × Run F (Journal F L) → String → Type 0
  Outcome disk line (answer, after) before =
      ((answer ≡ acknowledged)
        × (disk.no_directory ≡ none)
        × (disk.not_opened ≡ none)
        × (disk.cut_short ≡ none)
        × (after.state.file ≡ append before line))
      ⊎ ((answer ≡ refused "write_failed")
          × ((after.state.file ≡ before)
              ⊎ ((part : String) × (disk.cut_short ≡ some part)
                  × (after.state.file ≡ append before part))))

  append_line-Outcome :
      (disk : Disk) (http : Http) (line source event : String) (payload : Fields F)
      (r : Run F (Journal F L))
      → Outcome disk line
          (append_line marshal disk http line source event payload env r)
          r.state.file
  unfolding append_line write_line
  append_line-Outcome disk http line source event payload r =
      elim (Option-cases disk.no_directory) [
        | inr (e, failed) ↦ rw failed (inr (refl, inl refl))
        | inl made ↦ elim (Option-cases disk.not_opened) [
          | inr (e, failed) ↦ rw (made, failed) (inr (refl, inl refl))
          | inl opened ↦ elim (Option-cases disk.cut_short) [
            | inr (part, cut) ↦ rw (made, opened, cut) (inr (refl, inr (part, refl, refl)))
            | inl whole ↦
                let begun : Run F (Journal F L) = record r {
                  state = record r.state { file = append r.state.file line };
                } in
                rw (made, opened, whole)
                  (inl (refl, refl, refl, refl, post_event-Keeps http source event payload begun))
          ]
        ]
      ]

  -- the line that an event of the payload gives, at the time of r
  abbrev pub line_at : Run F (Journal F L) → Fields F → Fields F → String
  line_at r message payload = line_of marshal (
      record_of (now_text env r).0 (source_of message payload)
        (or_default (get_string payload "event") "UNKNOWN") payload)

  log_payload-Outcome :
      (disk : Disk) (http : Http) (message payload : Fields F) (r : Run F (Journal F L))
      → Outcome disk
          (line_at r message payload)
          (log_payload marshal disk http message (some payload) env r)
          r.state.file
  log_payload-Outcome disk http message payload r =
      append_line-Outcome disk http (line_at r message payload) (source_of message payload)
        (or_default (get_string payload "event") "UNKNOWN") payload (now_text env r).1

  log_payload-Grows :
      (disk : Disk) (http : Http) (message : Fields F) (o : Option (Fields F))
      (r : Run F (Journal F L))
      → Grows env (log_payload marshal disk http message o) r
  log_payload-Grows disk http message none r = ("", sym (append-nil r.state.file))
  log_payload-Grows disk http message (some payload) r =
      elim (log_payload-Outcome disk http message payload r) [
        | inl (a, b, c, d, e) ↦ (line_at r message payload, e)
        | inr (a, inl same) ↦ ("", same ∙ sym (append-nil r.state.file))
        | inr (a, inr (part, b, e)) ↦ (part, e)
      ]

  log_event-Grows :
      (disk : Disk) (http : Http) (message : Fields F) (r : Run F (Journal F L))
      → Grows env (handle_log_event marshal disk http message) r
  unfolding handle_log_event
  log_event-Grows disk http message r =
      elim (Bool-cases (is_trusted_sender message "security_monitor")) [
        | inl trusted ↦
            rw trusted (log_payload-Grows disk http message (get_map message "payload") r)
        | inr stranger ↦ rw stranger ("", sym (append-nil r.state.file))
      ]

  -- An event is acknowledged only if the security monitor sent it with a payload and the directory,
  -- the file and the write were in order, and then its line, with the time, the source and the event
  -- that it names, stands at the end of the file, after all that was there.
  pub handle_log_event-acknowledged :
      (disk : Disk) (http : Http) (message : Fields F) (r : Run F (Journal F L))
      → (handle_log_event marshal disk http message env r).0 ≡ acknowledged
      → (is_trusted_sender message "security_monitor" ≡ true)
        × (payload : Fields F) × (get_map message "payload" ≡ some payload)
        × (disk.no_directory ≡ none)
        × (disk.not_opened ≡ none)
        × (disk.cut_short ≡ none)
        × ((handle_log_event marshal disk http message env r).1.state.file
            ≡ append r.state.file (line_at r message payload))
  unfolding handle_log_event
  handle_log_event-acknowledged disk http message r h =
      elim (Bool-cases (is_trusted_sender message "security_monitor")) [
        | inr stranger ↦ absurd (ground (arith, stranger, h))
        | inl trusted ↦ elim (Option-cases (get_map message "payload")) [
          | inl absent ↦ absurd (ground (arith, trusted, absent, h))
          | inr (payload, found) ↦ elim (log_payload-Outcome disk http message payload r) [
            | inl (a, b, c, d, e) ↦ (trusted, payload, found, b, c, d, rw (trusted, found) e)
            | inr (a, rest) ↦ absurd (ground (arith, trusted, found, h, a))
          ]
        ]
      ]

module _ {F L : Type 0} (marshal : Value F → Result String) (decode : Value F → Option L)
    (env : Env F (Journal F L)) where
  react-Grows : (i : Input F) (r : Run F (Journal F L)) → Grows env (react marshal decode i) r
  unfolding react
  react-Grows (log_event disk http m) r = log_event-Grows marshal env disk http m r
  react-Grows (post_telemetry http m) r =
      grown env (react marshal decode (post_telemetry http m)) r
        (post_telemetry-Keeps env decode http m r)

  -- The log is append-only: after any messages, whatever the file system and the analytics service
  -- answer, the file begins with all that it held before.
  pub journey-Grows :
      (inputs : List (Input F)) (r : Run F (Journal F L))
      → Grows env (journey marshal decode inputs) r
  unfolding journey
  journey-Grows [] r = ("", sym (append-nil r.state.file))
  journey-Grows (i ∷ is) r =
      let one = react-Grows i r in
      let rest = journey-Grows is (react marshal decode i env r).1 in
      (
        append one.0 rest.0,
        rest.1 ∙ ap (λ f. append f rest.0) one.1 ∙ append_assoc r.state.file one.0 rest.0,
      )
