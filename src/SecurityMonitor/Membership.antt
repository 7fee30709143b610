-- ===== src/SecurityMonitor/Membership.antt =====
-- The laws of the sets of policy keys.
use drones.Common.{
  true, not, ◌&&◌, ◌||◌, ◌≡◌, refl, ◌↔◌, inl, inr, Bool-cases, List, [], ◌∷◌, arith, eq_iff,
}
use drones.SecurityMonitor.Policy.{PolicyKey, same_key, contains, insert, delete, clone_policy_map}

pub same_key_iff : (k j : PolicyKey) → (same_key k j ≡ true) ↔ (k ≡ j)
same_key_iff k j =
    ground (arith, eq_iff k.sender j.sender, eq_iff k.topic j.topic, eq_iff k.action j.action)

pub contains-insert :
    (ks : List PolicyKey) (k j : PolicyKey)
    → contains (insert ks k) j ≡ (same_key k j || contains ks j)
unfolding insert contains
contains-insert ks k j = elim (Bool-cases (contains ks k)) [
  | inl old ↦ rw old (elim (Bool-cases (same_key k j)) [
    | inl same ↦ rw same (ground (arith, same_key_iff k j))
    | inr other ↦ rw other
  ])
  | inr new ↦ rw new
]

pub contains-delete :
    (ks : List PolicyKey) (k j : PolicyKey)
    → contains (delete ks k) j ≡ (not (same_key k j) && contains ks j)
unfolding delete contains
contains-delete [] k j = ground arith
contains-delete (i ∷ ks) k j =
    ground (arith, contains-delete ks k j, same_key_iff i k, same_key_iff i j, same_key_iff k j)

pub contains-clone :
    (ks : List PolicyKey) (j : PolicyKey) → contains (clone_policy_map ks) j ≡ contains ks j
unfolding clone_policy_map contains
contains-clone [] j = refl
contains-clone (k ∷ ks) j = rw (contains-insert (clone_policy_map ks) k j, contains-clone ks j)
