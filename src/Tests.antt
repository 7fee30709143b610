-- ===== src/Tests.antt =====
-- The environments and inputs on which the tests run: numbers for float64, and a broker that never
-- answers a request.
mod Monitors
mod Flights
mod Devices
mod Limits
mod Missions
mod Rescues
mod Reports
mod Access
mod Exchanges
mod Records
use drones.Common.{ℕ, ◌+◌, ◌-◌, ◌*◌, ◌/◌, ◌^◌, String, none, List, [], ◌∷◌, ltb, leb, eqb, itoa}
use drones.Message.{Fields, pos, negsuc, str, obj, empty, fields}
use drones.Bus.{Env, err}
use drones.Floats.{Floats}

abbrev pub numbers : Floats ℕ
numbers = record {
  lt = ltb;
  le = leb;
  eq = eqb;
  add = ◌+◌;
  sub = ◌-◌;
  mul = ◌*◌;
  div = λ x y. x / (y + 1);
  neg = λ x. 0;
  abs = λ x. x;
  sqrt = λ x. x;
  sin = λ x. 0;
  cos = λ x. 1;
  atan2 = λ y x. 0;
  fmod = λ x y. x;
  pi = 3;
  dec = λ m k. m / 10 ^ k;
  of_int = λ z. elim z [ pos n ↦ n | negsuc n ↦ 0 ];
  nanos = λ n. n;
  to_int = pos;
}

abbrev pub silent_env : {S : Type 0} → Env ℕ S
silent_env = record {
  request = λ events topic m. err "timeout";
  publish = λ events topic m. none;
  now = λ events. 1000;
  timestamp = itoa;
  date_time = itoa;
  meanwhile = λ events s. s;
}

-- A message of an action, from a sender, with a payload.
abbrev pub sent_by : String → String → Fields ℕ → Fields ℕ
sent_by sender action payload =
    fields (("action", str action) ∷ ("sender", str sender) ∷ ("payload", obj payload) ∷ [])

abbrev pub from_monitor : Fields ℕ → Fields ℕ
from_monitor payload = sent_by "security_monitor" "request" payload
