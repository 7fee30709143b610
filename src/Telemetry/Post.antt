-- ===== src/Telemetry/Post.antt =====
-- What the telemetry posts.
use drones.Common.{
  ℕ, ◌≤◌, ltb, ◌≡◌, refl, ap, ◌⊎◌, inl, inr, Option, some, none, List, ◌∷◌, arith, Bool-cases, true,
  false, if◌then◌else◌, not, Bool, String,
}
use drones.Message.{ℤ, pos, negsuc, Fields, int, only, obj, get}
use drones.Bus.{Event, published, Env, Run, pure}
use drones.Floats.{Floats}
use drones.Component.{proxy_message}
use drones.Telemetry.{
  Telemetry, clamp_battery, battery_of, percentage, first_of, map_float, last_target, log_item,
  post_at, post_analytics_telemetry,
}

clamp_battery_bounds : (z : ℤ) → (n : ℕ) × (clamp_battery z ≡ pos n) × (n ≤ 100)
unfolding clamp_battery
clamp_battery_bounds (negsuc m) = (0, refl, omega arith)
clamp_battery_bounds (pos m) = elim (Bool-cases (ltb 100 m)) [
  | inl above ↦ (100, ground (arith, above), omega arith)
  | inr fits ↦ (m, ground (arith, fits), ground (arith, fits))
]

battery_of_bounds :
    {F : Type 0} (fl : Floats F) (default : ℤ) (nav motors cargo : Option (Fields F))
    → (n : ℕ) × (battery_of fl default nav motors cargo ≡ pos n) × (n ≤ 100)
unfolding battery_of
battery_of_bounds fl default nav motors cargo = clamp_battery_bounds (
    percentage fl default (
      first_of (map_float fl cargo "battery_pct" "battery") (
        first_of (map_float fl nav "battery_pct" "battery")
          (map_float fl motors "battery_pct" "battery"))))

module _ {F : Type 0} (fl : Floats F) (env : Env F (Telemetry F)) (r : Run F (Telemetry F)) where
  -- The last event is the post of an item whose charge is a number of percent from 0 to 100.
  pub record Posted (events : List (Event F)) : Type 0 where
    pub item : Fields F
    pub percent : ℕ
    pub posted :
        events
        ≡ published r.state.proxy.security_monitor_topic (
            proxy_message "proxy_publish" r.state.proxy r.state.journal_topic "POST_TELEMETRY"
              (only "telemetry_log" (obj item)))
          ∷ r.events
    pub charge : get item "battery" ≡ some (int (pos percent))
    pub at_most_100 : percent ≤ 100

  post_at-Posted :
      (lat lon : Option F) (ms : ℕ) (nav motors cargo : Option (Fields F))
      → ((post_at fl lat lon ms nav motors cargo env r).1.events ≡ r.events)
        ⊎ Posted (post_at fl lat lon ms nav motors cargo env r).1.events
  unfolding get
  post_at-Posted (some lat) (some lon) ms nav motors cargo =
      let b = battery_of_bounds fl r.state.default_battery_pct nav motors cargo in
      inr (record {
        item = log_item fl r.state ms lat lon nav motors cargo;
        percent = b.0;
        posted = refl;
        charge = ap (λ z. some (int z)) b.1;
        at_most_100 = b.2;
      })
  post_at-Posted (some lat) none ms nav motors cargo = inl refl
  post_at-Posted none lon ms nav motors cargo = inl refl

  abbrev place : Option (Fields F) → Option (Fields F) → String → Option F
  place nav motors k = first_of (map_float fl nav k k) (map_float fl (last_target motors) k k)

  -- Whatever navigation, motors and cargo answer, and whatever the configured default is, the telemetry
  -- sends either nothing or one post, whose charge of the battery is from 0 to 100 percent.
  pub post_analytics_telemetry-Posted :
      (ms : ℕ) (nav motors cargo : Option (Fields F))
      → ((post_analytics_telemetry fl ms nav motors cargo env r).1.events ≡ r.events)
        ⊎ Posted (post_analytics_telemetry fl ms nav motors cargo env r).1.events
  unfolding post_analytics_telemetry
  post_analytics_telemetry-Posted ms nav motors cargo = go r.state.analytics.enabled
    where
      go :
          (enabled : Bool)
          → (((if not enabled
                  then pure tt
                  else post_at fl
                      (place nav motors "lat")
                      (place nav motors "lon")
                      ms
                      nav
                      motors
                      cargo)
                env r).1.events
              ≡ r.events)
            ⊎ Posted
                ((if not enabled
                    then pure tt
                    else post_at fl
                        (place nav motors "lat")
                        (place nav motors "lon")
                        ms
                        nav
                        motors
                        cargo)
                  env r).1.events
      go false = inl refl
      go true = post_at-Posted (place nav motors "lat") (place nav motors "lon") ms nav motors cargo
