-- ===== src/Limiter/Breach.antt =====
-- limiter.go: the state of the limiter after a comparison of the position with the mission, and the
-- emergency that it reports.
use drones.Common.{
  String, Bool, true, ◌≡◌, ◌≢◌, refl, ap, sym, subst, ◌⊎◌, inl, inr, ◌||◌, Option, none, some, List,
  ◌∷◌, arith, eqb, is_empty,
}
use drones.Message.{Fields}
use drones.Bus.{Event, published, Env, Run}
use drones.Bus.Keeps.{Rely, Keeps, Keeps-pure, Keeps-if}
use drones.Floats.{Floats}
use drones.Component.{ProxyClient, proxy_message}
use drones.Limiter.State.{State, normal, warning, emergency, rank, Limiter, get_float, journal}
use drones.Limiter.Orvd.{land_event}
use drones.Limiter.Stable.{report_orvd_incident-Keeps}
use drones.Limiter.Fence.{
  classify, deviation, breach_details, report_breach, publish_emergency, announce, enter,
  compare_position, target_of, recalculate,
}

-- A limiter in the state EMERGENCY that reaches the security monitor through p and the emergency
-- component under a topic.
pub record Alarmed {F : Type 0} (p : ProxyClient) (topic : String) (l : Limiter F) : Type 0 where
  pub raised : l.state ≡ emergency
  pub through : l.proxy ≡ p
  pub reaches : l.emergency_topic ≡ topic

module _ {F : Type 0} (fl : Floats F) where
  pub report_breach-Keeps :
      {P : Limiter F → Type 0} (nav : Option (Fields F)) (mid : String)
      → Keeps P (report_breach fl nav mid)
  report_breach-Keeps none mid = Keeps-pure tt
  report_breach-Keeps (some nav) mid =
      Keeps-if (is_empty mid) _ _ (λ e. Keeps-pure tt)
        λ e.
          report_orvd_incident-Keeps mid "geofence_violation" "critical" (get_float fl nav "lat")
            (get_float fl nav "lon")

  -- what the security monitor is to forward to the emergency component
  abbrev pub alarm : Limiter F → F × F → Event F
  alarm l d = published l.proxy.security_monitor_topic (
      proxy_message "proxy_publish" l.proxy l.emergency_topic "limiter_event"
        (land_event (breach_details fl l d.0 d.1)))

  module _ (env : Env F (Limiter F)) (r : Run F (Limiter F)) where
    publish_emergency-alarm :
        (p : ProxyClient) (topic : String) (distance alt_dev : F)
        → Rely (Alarmed p topic) env
        → Alarmed p topic r.state
        → Alarmed p topic (publish_emergency fl distance alt_dev env r).1.state
          × ((before : List (Event F)) × ((publish_emergency fl distance alt_dev env r).1.events
                ≡ published p.security_monitor_topic (
                    proxy_message "proxy_publish" p topic "limiter_event"
                      (land_event (breach_details fl r.state distance alt_dev)))
                  ∷ before))
    unfolding publish_emergency
    publish_emergency-alarm p topic distance alt_dev g h =
        let logged =
          (journal "LIMITER_EMERGENCY_LAND_REQUIRED" (breach_details fl r.state distance alt_dev)
            env r).1 in
        let reported = report_breach fl r.state.last_nav r.state.orvd_mission_id env logged in
        let a =
          (report_breach-Keeps r.state.last_nav r.state.orvd_mission_id).kept env logged g h in
        (a, (reported.1.events, ground (arith, a.through, a.reaches)))

  eq_rank : (a b : State) → eqb (rank a) (rank b) ≡ true → a ≡ b
  eq_rank normal normal e = refl
  eq_rank warning warning e = refl
  eq_rank emergency emergency e = refl
  eq_rank normal warning e = cc
  eq_rank normal emergency e = cc
  eq_rank warning normal e = cc
  eq_rank warning emergency e = cc
  eq_rank emergency normal e = cc
  eq_rank emergency warning e = cc

  -- The run ends in the state EMERGENCY, and its last event is the alarm that l raises.
  abbrev pub Raised : Limiter F → F × F → Run F (Limiter F) → Type 0
  Raised l d after =
      Alarmed l.proxy l.emergency_topic after.state
      × ((before : List (Event F)) × (after.events ≡ alarm l d ∷ before))

  -- the distance or the deviation is above its limit
  abbrev pub beyond : Limiter F → F × F → Bool
  beyond l d = fl.lt l.max_distance_from_path_m d.0 || fl.lt l.max_alt_deviation_m d.1

  -- the verdict on the distance and the deviation in altitude
  abbrev pub assess : Limiter F → F × F → State
  assess l d = classify fl l.max_distance_from_path_m l.max_alt_deviation_m d.0 d.1

  beyond-emergency : (l : Limiter F) (d : F × F) → beyond l d ≡ true → assess l d ≡ emergency
  unfolding classify
  beyond-emergency l d e = ground (arith, e)

  module _ (env : Env F (Limiter F)) (r : Run F (Limiter F)) where
    module _ (g : Rely (Alarmed r.state.proxy r.state.emergency_topic) env) (d : F × F) where
      entered-Raised : Raised r.state d (enter fl normal emergency d.0 d.1 env r).1
      unfolding enter announce
      entered-Raised =
          publish_emergency-alarm env (record r { state = record r.state { state = emergency } })
            r.state.proxy r.state.emergency_topic d.0 d.1 g
            (record { raised = refl; through = refl; reaches = refl })

      enter-Raised :
          (s c : State)
          → s ≢ emergency
          → c ≡ emergency
          → Raised r.state d (enter fl s c d.0 d.1 env r).1
      unfolding enter announce
      enter-Raised normal emergency n e = entered-Raised
      enter-Raised warning emergency n e = entered-Raised
      enter-Raised emergency c n e = elim (n refl) [ ]
      enter-Raised s normal n e = cc
      enter-Raised s warning n e = cc

    -- When the position is further from the point of the mission's last step, in the plane or in
    -- altitude, than the limits allow - wherever the earlier steps are -, and the limiter was not yet in
    -- the state EMERGENCY, the comparison ends in that state and its last event is the emergency message
    -- that the security monitor is to forward. This is for other goroutines that leave an alarmed
    -- limiter's state and addresses alone.
    pub recalculate-Raised :
        (nav target : Fields F)
        → r.state.last_nav ≡ some nav
        → target_of fl r.state.mission ≡ some target
        → Rely (Alarmed r.state.proxy r.state.emergency_topic) env
        → beyond r.state (deviation fl nav target) ≡ true
        → r.state.state ≢ emergency
        → Raised r.state (deviation fl nav target) (recalculate fl env r).1
    unfolding recalculate compare_position
    recalculate-Raised nav target at there g e n =
        let d = deviation fl nav target in
        subst
          (λ o.
            Raised r.state d (compare_position fl r.state o (target_of fl r.state.mission) env r).1)
          (sym at)
          (subst (λ o. Raised r.state d (compare_position fl r.state (some nav) o env r).1)
            (sym there)
            (enter-Raised g d r.state.state (assess r.state d) n (beyond-emergency r.state d e)))

    -- The state is c, nothing else has changed, and the only event can be an entry for the journal.
    abbrev pub Quiet : State → Run F (Limiter F) → Type 0
    Quiet c after =
        (after.state ≡ record r.state { state = c })
        × ((after.events ≡ r.events)
            ⊎ ((details : Fields F) × (after.events
                  ≡ published r.state.proxy.security_monitor_topic (
                      proxy_message "proxy_publish" r.state.proxy r.state.journal_topic "LOG_EVENT"
                        details)
                    ∷ r.events)))

    enter-Quiet :
        (d : F × F) (s c : State)
        → s ≡ r.state.state
        → (c ≢ emergency) ⊎ (c ≡ s)
        → Quiet c (enter fl s c d.0 d.1 env r).1
    unfolding enter announce
    enter-Quiet d normal normal e q = (ap (λ x. record r.state { state = x }) (sym e), inl refl)
    enter-Quiet d warning warning e q = (ap (λ x. record r.state { state = x }) (sym e), inl refl)
    enter-Quiet d emergency emergency e q =
        (ap (λ x. record r.state { state = x }) (sym e), inl refl)
    enter-Quiet d normal warning e q = (refl, inr (_, refl))
    enter-Quiet d emergency warning e q = (refl, inr (_, refl))
    enter-Quiet d warning normal e q = (refl, inl refl)
    enter-Quiet d emergency normal e q = (refl, inl refl)
    enter-Quiet d normal emergency e q = elim q [ inl n ↦ elim (n refl) [ ] | inr other ↦ cc ]
    enter-Quiet d warning emergency e q = elim q [ inl n ↦ elim (n refl) [ ] | inr other ↦ cc ]

    -- When the verdict on the position is not EMERGENCY, or is the state that the limiter is in already,
    -- the comparison makes it the state, changes nothing else, and sends nothing but at most an entry
    -- for the journal: an alarm is not repeated.
    pub recalculate-Quiet :
        (nav target : Fields F)
        → r.state.last_nav ≡ some nav
        → target_of fl r.state.mission ≡ some target
        → (assess r.state (deviation fl nav target) ≢ emergency)
          ⊎ (assess r.state (deviation fl nav target) ≡ r.state.state)
        → Quiet (assess r.state (deviation fl nav target)) (recalculate fl env r).1
    unfolding recalculate compare_position
    recalculate-Quiet nav target at there q =
        let d = deviation fl nav target in
        subst
          (λ o.
            Quiet (assess r.state d)
              (compare_position fl r.state o (target_of fl r.state.mission) env r).1)
          (sym at)
          (subst (λ o. Quiet (assess r.state d) (compare_position fl r.state (some nav) o env r).1)
            (sym there) (enter-Quiet d r.state.state (assess r.state d) refl q))
