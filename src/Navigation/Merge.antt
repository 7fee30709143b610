-- ===== src/Navigation/Merge.antt =====
-- What an update does to the navigation state: Go's range over a map visits each key once, so the
-- laws are stated for maps that hold each key once.
use drones.Common.{
  String, true, ◌≡◌, refl, ◌∙◌, inl, inr, Bool-cases, Option, none, some, arith, ◌==◌, eq_iff,
}
use drones.Message.{Fields, Value, empty, entry, get, put, copy_into, get-put, get_map}
use drones.Bus.{Env, Run}
use drones.Component.{is_trusted_sender}
use drones.Navigation.{Navigation, handle_nav_state, handle_update_config, handle_get_state}

module _ {F : Type 0} where
  -- no key stands twice
  abbrev pub IsMap : Fields F → Type 0
  IsMap empty = Unit
  IsMap (entry k v m) = (get m k ≡ none) × IsMap m

  -- the value of the later map, or else of the earlier
  abbrev pub over : Option (Value F) → Option (Value F) → Option (Value F)
  over (some v) old = some v
  over none old = old

  over-none : (o : Option (Value F)) → over o none ≡ o
  over-none none = refl
  over-none (some v) = refl

  pub get-copy_into :
      (src dst : Fields F) (k : String)
      → IsMap src
      → get (copy_into dst src) k ≡ over (get src k) (get dst k)
  unfolding get copy_into
  get-copy_into empty dst k h = refl
  get-copy_into (entry j v m) dst k (fresh, h) =
      get-copy_into m (put dst j v) k h ∙ ground (arith, get-put dst j k v, eq_iff j k)

  -- a copy holds what its source holds
  pub get-copy_into_empty :
      (src : Fields F) (k : String) → IsMap src → get (copy_into empty src) k ≡ get src k
  unfolding get
  get-copy_into_empty src k h = get-copy_into src empty k h ∙ over-none (get src k)

  IsMap-put : (m : Fields F) (k : String) (v : Value F) → IsMap m → IsMap (put m k v)
  unfolding get put
  IsMap-put empty k v h = (refl, tt)
  IsMap-put (entry j w m) k v (fresh, h) = elim (Bool-cases (j == k)) [
    | inl same ↦ rw same (ground (arith, eq_iff j k), h)
    | inr other ↦
        rw other (ground (arith, get-put m k j v, eq_iff j k, eq_iff k j), IsMap-put m k v h)
  ]

  pub IsMap-copy_into : (src dst : Fields F) → IsMap dst → IsMap (copy_into dst src)
  unfolding copy_into
  IsMap-copy_into empty dst h = h
  IsMap-copy_into (entry k v m) dst h = IsMap-copy_into m (put dst k v) (IsMap-put dst k v h)

module _ {F : Type 0} (message query payload : Fields F) (env : Env F (Navigation F))
    (r : Run F (Navigation F)) (trusted : is_trusted_sender message "security_monitor" ≡ true)
    (asks : is_trusted_sender query "security_monitor" ≡ true)
    (given : get_map message "payload" ≡ some payload) (unique : IsMap payload) where
  -- A nav_state from the security monitor, with a payload that holds each key once, replaces the
  -- state: the monitor's next get_state is answered with a map that holds at every key what the
  -- payload holds there, and no other key.
  pub nav_state-get_state :
      (k : String)
      → (out : Fields F) × ((handle_get_state query env (handle_nav_state message env r).1).0
          ≡ some out)
        × (get out k ≡ get payload k)
  unfolding handle_nav_state handle_get_state
  nav_state-get_state k = (
    copy_into empty (copy_into empty payload),
    ground arith,
    get-copy_into_empty (copy_into empty payload) k (IsMap-copy_into payload empty tt)
        ∙ get-copy_into_empty payload k unique,
  )

  -- An update_config from the security monitor merges, where the payload and the state hold each key
  -- once: the monitor's next get_state is answered with a map that holds at every key the payload's
  -- value or, where the payload has none, the value from before.
  pub update_config-get_state :
      IsMap r.state.last_state
      → (k : String)
      → (out : Fields F) × ((handle_get_state query env (handle_update_config message env r).1).0
          ≡ some out)
        × (get out k ≡ over (get payload k) (get r.state.last_state k))
  unfolding handle_update_config handle_get_state
  update_config-get_state h k = (
    copy_into empty (copy_into r.state.last_state payload),
    ground arith,
    get-copy_into_empty (copy_into r.state.last_state payload) k
          (IsMap-copy_into payload r.state.last_state h)
        ∙ get-copy_into payload r.state.last_state k unique,
  )
