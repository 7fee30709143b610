-- ===== src/Emergency/Search.antt =====
-- droneport.go: how deep unwrapDroneportBody looks.
use drones.Common.{ℕ, zero, suc, ◌≤◌, true, ◌≡◌, refl, ap, some, arith}
use drones.Message.{Fields, obj, only, get}
use drones.Emergency.Port.{is_body, look, unwrap, unwrap_droneport_body}

module _ {F : Type 0} where
  -- a body inside k answers of the security monitor
  abbrev pub wrap : ℕ → Fields F → Fields F
  wrap zero body = body
  wrap (suc k) body = only "target_response" (obj (wrap k body))

  unwrap-body : (n : ℕ) (body : Fields F) → is_body body ≡ true → unwrap n body ≡ body
  unfolding unwrap look
  unwrap-body zero body h = refl
  unwrap-body (suc n) body h = ground (arith, h)

  unwrap-wrap_any :
      (k n : ℕ) (body : Fields F) → is_body body ≡ true → k ≤ n → unwrap n (wrap k body) ≡ body
  unfolding unwrap look get
  unwrap-wrap_any zero n body h le = unwrap-body n body h
  unwrap-wrap_any (suc k) zero body h le = ground (arith, le)
  unwrap-wrap_any (suc k) (suc n) body h le = unwrap-wrap_any k n body h (omega arith)

  -- A body that holds an error, an approval, a port, a charge or a list of drones is found inside up to
  -- six answers of the security monitor.
  pub unwrap-wrap :
      (k : ℕ) (body : Fields F)
      → is_body body ≡ true
      → k ≤ 6
      → unwrap_droneport_body (some (wrap k body)) ≡ some body
  unfolding unwrap_droneport_body
  unwrap-wrap k body h le = ap some (unwrap-wrap_any k 6 body h le)
