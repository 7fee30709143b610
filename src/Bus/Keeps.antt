-- ===== src/Bus/Keeps.antt =====
-- Invariants of the actions of a component, while other goroutines keep them too.
use drones.Common.{Bool, true, false, ◌≡◌, refl, List, String, if◌then◌else◌}
use drones.Message.{Fields}
use drones.Bus.{Event, Env, Run, M, pure, gets, modify, ◌>>=◌, ◌>>◌, publish, request, now}

-- The other goroutines keep P.
abbrev pub Rely : {F S : Type 0} → (S → Type 0) → Env F S → Type 0
Rely {F} {S} P env = (events : List (Event F)) (s : S) → P s → P (env.meanwhile events s)

pub record Keeps {F S A : Type 0} (P : S → Type 0) (m : M F S A) : Type 0 where
  pub kept : (env : Env F S) (r : Run F S) → Rely P env → P r.state → P (m env r).1.state

module _ {F S A : Type 0} {P : S → Type 0} where
  pub Keeps-pure : (a : A) → Keeps {F = F} P (pure a)
  Keeps-pure a = record { kept = λ env r g h. h }

  pub Keeps-gets : (f : S → A) → Keeps {F = F} P (gets f)
  Keeps-gets f = record { kept = λ env r g h. h }

  pub Keeps-if :
      (test : Bool) (one other : M F S A)
      → (test ≡ true → Keeps P one)
      → (test ≡ false → Keeps P other)
      → Keeps P (if test then one else other)
  Keeps-if true one other k l = k refl
  Keeps-if false one other k l = l refl

module _ {F S : Type 0} {P : S → Type 0} where
  pub Keeps-modify : (f : S → S) → ((s : S) → P s → P (f s)) → Keeps {F = F} P (modify f)
  Keeps-modify f keep = record { kept = λ env r g h. keep r.state h }

  pub Keeps-now : Keeps {F = F} P now
  Keeps-now = record { kept = λ env r g h. h }

  pub Keeps-publish : (topic : String) (m : Fields F) → Keeps P (publish topic m)
  Keeps-publish topic m = record { kept = λ env r g h. h }

  pub Keeps-request : (topic : String) (m : Fields F) → Keeps P (request topic m)
  Keeps-request topic m = record { kept = λ env r g h. g r.events r.state h }

module _ {F S A B : Type 0} {P : S → Type 0} where
  pub Keeps-bind :
      (first : M F S A) (next : A → M F S B)
      → Keeps P first
      → ((a : A) → Keeps P (next a))
      → Keeps P (first >>= next)
  Keeps-bind first next k l = record {
    kept = λ env r g h. (l (first env r).0).kept env (first env r).1 g (k.kept env r g h);
  }

  pub Keeps-then : (m : M F S A) (k : M F S B) → Keeps P m → Keeps P k → Keeps P (m >> k)
  Keeps-then m k km kk = record {
    kept = λ env r g h. kk.kept env (m env r).1 g (km.kept env r g h);
  }
