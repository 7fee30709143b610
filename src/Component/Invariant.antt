-- ===== src/Component/Invariant.antt =====
-- What every handler keeps, given a message, is kept by the component that dispatches to them.
use drones.Common.{
  String, Bool, ◌≡◌, refl, subst, inl, inr, Bool-cases, Option, none, some, List, [], ◌∷◌, arith,
  ◌==◌, is_empty,
}
use drones.Message.{Fields, get_string}
use drones.Bus.{Result, ok, err, respond, pure}
use drones.Bus.Keeps.{Keeps, Keeps-if, Keeps-pure}
use drones.Component.{
  Base, Registered, ping, get_status, custom, call, find_handler, run_handler, send_result,
  ProxyClient, proxy_request, handle_message,
}

module _ {F S : Type 0} (P : S → Type 0) (m : Fields F) where
  abbrev pub KeepsAll : Registered F S → Type 0
  KeepsAll (custom h) = Keeps P (h m)
  KeepsAll _ = Unit

  -- Every handler of a table keeps P when it is given m.
  abbrev pub AllKeep : List (String × Registered F S) → Type 0
  AllKeep [] = Unit
  AllKeep ((a, h) ∷ hs) = KeepsAll h × AllKeep hs

  call-Keeps : (c : Base F S) (h : Registered F S) → KeepsAll h → Keeps P (call c h m)
  unfolding call
  call-Keeps c ping k = record { kept = λ env r g p. p }
  call-Keeps c get_status k = record { kept = λ env r g p. p }
  call-Keeps c (custom h) k = k

  respond-Keeps :
      (payload : Fields F) (sender : String) (success : Bool) (e : String)
      → Keeps P (respond {F = F} {S = S} m payload sender success e)
  unfolding respond
  respond-Keeps payload sender success e = record { kept = λ env r g p. ground arith }

  send_result-Keeps :
      (c : Base F S) (result : Result (Option (Fields F))) → Keeps P (send_result c m result)
  unfolding send_result
  send_result-Keeps c (err e) = record { kept = λ env r g p. ground arith }
  send_result-Keeps c (ok none) = record { kept = λ env r g p. p }
  send_result-Keeps c (ok (some payload)) = record { kept = λ env r g p. p }

  run_handler-Keeps :
      (c : Base F S) (h : Option (Registered F S))
      → ((x : Registered F S) → h ≡ some x → KeepsAll x)
      → Keeps P (run_handler c m h)
  unfolding run_handler
  run_handler-Keeps c none k = record { kept = λ env r g p. ground arith }
  run_handler-Keeps c (some h) k = record {
    kept = λ env r g p.
        let q = (call-Keeps c h (k h refl)).kept env r g p in
        ground
          (arith, (send_result-Keeps c (call c h m env r).0).kept env (call c h m env r).1 g q);
  }

  find_handler-Keeps :
      (hs : List (String × Registered F S)) (action : String) (h : Registered F S)
      → AllKeep hs
      → find_handler hs action ≡ some h
      → KeepsAll h
  unfolding find_handler
  find_handler-Keeps [] action h k e = cc
  find_handler-Keeps ((a, x) ∷ hs) action h (kx, k) e = elim (Bool-cases (a == action)) [
    | inl same ↦ subst KeepsAll (ground arith) kx
    | inr other ↦ find_handler-Keeps hs action h k (ground arith)
  ]

  pub handle_message-Keeps : (c : Base F S) → AllKeep c.handlers → Keeps P (handle_message c m)
  unfolding handle_message
  handle_message-Keeps c k =
      Keeps-if (is_empty (get_string m "action")) (pure tt)
        (run_handler c m (find_handler c.handlers (get_string m "action"))) (λ _. Keeps-pure tt)
        λ _.
          run_handler-Keeps c (find_handler c.handlers (get_string m "action"))
            λ h. find_handler-Keeps c.handlers (get_string m "action") h k

module _ {F S : Type 0} {P : S → Type 0} where
  pub proxy_request-Keeps :
      (p : ProxyClient) (topic action : String) (payload : Fields F)
      → Keeps P (proxy_request p topic action payload)
  unfolding proxy_request
  proxy_request-Keeps p topic action payload = record { kept = λ env r g h. g r.events r.state h }
