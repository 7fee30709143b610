-- ===== src/Access/Users.antt =====
-- BrokerUsers: the users of a password file.
use mathlib.Core.List.Memᴰ
use mathlib.Core.List.{Memᴰ}
use drones.Common.{
  String, true, false, List, [], ◌∷◌, ◌++◌, ◌≡◌, ◌≢◌, ◌⊎◌, ◌↔◌, ◌==◌, eq_iff, refl, sym, ◌∙◌, arith,
  ap, Bool-cases, inl, inr,
}
use drones.Access.{
  MqttAclSpec, username, leb_text, sort_strings, insert_text, contains_text_item, add_users,
  broker_users,
}
use drones.Access.Sections.{sort_strings-mem}

leb_text_total : (s t : String) → leb_text s t ≡ false → leb_text t s ≡ true
unfolding leb_text
leb_text_total String.[] t h = cc
leb_text_total (String.◌∷◌ c s) String.[] h = refl
leb_text_total (String.◌∷◌ c s) (String.◌∷◌ d t) h = ground (arith, leb_text_total s t)

-- Each text comes before the next one, and differs from it.
abbrev pub IsAscending : List String → Type 0
IsAscending [] = Unit {0}
IsAscending (x ∷ []) = Unit {0}
IsAscending (x ∷ y ∷ ys) = (leb_text x y ≡ true) × (x ≢ y) × IsAscending (y ∷ ys)

-- x comes before the first text of a list.
abbrev Before : String → List String → Type 0
Before x [] = Unit {0}
Before x (y ∷ ys) = (leb_text x y ≡ true) × (x ≢ y)

IsAscending-cons :
    (x : String) (ys : List String) → Before x ys → IsAscending ys → IsAscending (x ∷ ys)
IsAscending-cons x [] b h = tt
IsAscending-cons x (y ∷ ys) b h = (b.0, b.1, h)

tail-IsAscending :
    (x : String) (ys : List String) → IsAscending (x ∷ ys) → Before x ys × IsAscending ys
tail-IsAscending x [] h = (tt, tt)
tail-IsAscending x (y ∷ ys) h = ((h.0, h.1), h.2)

insert_text-Before :
    (z x : String) (ys : List String)
    → leb_text z x ≡ true
    → z ≢ x
    → Before z ys
    → Before z (insert_text x ys)
unfolding insert_text
insert_text-Before z x [] l n b = (l, n)
insert_text-Before z x (y ∷ ys) l n b = elim (Bool-cases (leb_text x y)) [
  | inl e ↦ rw e (l, n)
  | inr e ↦ rw e b
]

insert_text-IsAscending :
    (x : String) (ys : List String) → ¬ Memᴰ x ys → IsAscending ys → IsAscending (insert_text x ys)
unfolding insert_text
insert_text-IsAscending x [] new h = tt
insert_text-IsAscending x (y ∷ ys) new h = elim (Bool-cases (leb_text x y)) [
  | inl le ↦ rw le (le, λ e. new (Memᴰ.head e), h)
  | inr gt ↦
      let below = tail-IsAscending y ys h in
      rw gt (
        IsAscending-cons y (insert_text x ys)
          (insert_text-Before y x ys (leb_text_total x y gt) (λ e. new (Memᴰ.head (sym e))) below.0)
          (insert_text-IsAscending x ys (λ m. new (Memᴰ.tail m)) below.1))
]

-- No item of a list is there twice.
abbrev Distinct : List String → Type 0
Distinct [] = Unit {0}
Distinct (x ∷ xs) = (¬ Memᴰ x xs) × Distinct xs

sort_strings-IsAscending : (xs : List String) → Distinct xs → IsAscending (sort_strings xs)
unfolding sort_strings
sort_strings-IsAscending [] d = tt
sort_strings-IsAscending (x ∷ xs) d =
    insert_text-IsAscending x (sort_strings xs) (λ m. d.0 ((sort_strings-mem x xs).0 m))
      (sort_strings-IsAscending xs d.1)

contains-mem : (vs : List String) (u : String) → (contains_text_item vs u ≡ true) ↔ Memᴰ u vs
unfolding contains_text_item
contains-mem [] u = (λ h. cc, λ m. absurd (Memᴰ.not-nil m))
contains-mem (v ∷ vs) u = (
  λ h. elim (Bool-cases (v == u)) [
    | inl e ↦ Memᴰ.head (sym ((eq_iff v u).0 e))
    | inr n ↦ Memᴰ.tail ((contains-mem vs u).0 (ground arith))
  ],
  λ m. elim (Memᴰ.cases_cons m) [
    | inl e ↦ ground (arith, eq_iff v u)
    | inr below ↦ ground (arith, (contains-mem vs u).1 below)
  ],
)

snoc-Distinct :
    (xs : List String) (u : String) → ¬ Memᴰ u xs → Distinct xs → Distinct (xs ++ (u ∷ []))
snoc-Distinct [] u n d = (λ m. Memᴰ.not-nil m, tt)
snoc-Distinct (x ∷ xs) u n d = (
  λ m. elim (Memᴰ.append_cases xs m) [
    | inl k ↦ d.0 k
    | inr k ↦ n (Memᴰ.head (sym (Memᴰ.eq_of_singleton k)))
  ],
  snoc-Distinct xs u (λ m. n (Memᴰ.tail m)) d.1,
)

module _ (s : MqttAclSpec) where
  add_users-Distinct : (cs out : List String) → Distinct out → Distinct (add_users s cs out)
  unfolding add_users
  add_users-Distinct [] out d = d
  add_users-Distinct (c ∷ cs) out d = elim (Bool-cases (contains_text_item out (username s c))) [
    | inl old ↦ rw old (add_users-Distinct cs out d)
    | inr new ↦
        let fresh_user : ¬ Memᴰ (username s c) out =
          λ m. absurd (ground (arith, new, (contains-mem out (username s c)).1 m)) in
        rw new (add_users-Distinct cs _ (snoc-Distinct out (username s c) fresh_user d))
  ]

  abbrev pub UserOf : String → List String → Type 0
  UserOf u cs = (c : String) × Memᴰ c cs × (u ≡ username s c)

  add_users-mem :
      (cs out : List String) (u : String) → Memᴰ u (add_users s cs out) ↔ (Memᴰ u out ⊎ UserOf u cs)
  unfolding add_users
  add_users-mem [] out u =
      (λ m. inl m, λ m. elim m [ inl k ↦ k | inr (c, k, e) ↦ absurd (Memᴰ.not-nil k) ])
  add_users-mem (c ∷ cs) out u =
      let v = username s c in
      elim (Bool-cases (contains_text_item out v)) [
        | inl old ↦
            let ih = add_users-mem cs out u in
            rw old (
              λ m. elim (ih.0 m) [ inl k ↦ inl k | inr (d, k, e) ↦ inr (d, Memᴰ.tail k, e) ],
              λ m. ih.1 (elim m [
                | inl k ↦ inl k
                | inr (d, k, e) ↦ elim (Memᴰ.cases_cons k) [
                  | inl same ↦
                      inl (Memᴰ.cast (e ∙ ap (username s) same) ((contains-mem out v).0 old))
                  | inr below ↦ inr (d, below, e)
                ]
              ]),
            )
        | inr new ↦
            let ih = add_users-mem cs (out ++ (v ∷ [])) u in
            rw new (
              λ m. elim (ih.0 m) [
                | inl k ↦ elim (Memᴰ.append_cases out k) [
                  | inl j ↦ inl j
                  | inr j ↦ inr (c, Memᴰ.head refl, Memᴰ.eq_of_singleton j)
                ]
                | inr (d, k, e) ↦ inr (d, Memᴰ.tail k, e)
              ],
              λ m. ih.1 (elim m [
                | inl k ↦ inl (Memᴰ.append_left _ k)
                | inr (d, k, e) ↦ elim (Memᴰ.cases_cons k) [
                  | inl same ↦ inl (Memᴰ.append_right out (Memᴰ.head (e ∙ ap (username s) same)))
                  | inr below ↦ inr (d, below, e)
                ]
              ]),
            )
      ]

  -- The users of the password file stand in ascending order, each once, and are exactly the
  -- usernames of the components.
  pub broker_users-set :
      IsAscending (broker_users s)
      × ((u : String) → Memᴰ u (broker_users s) ↔ UserOf u s.components)
  unfolding broker_users
  broker_users-set =
      let listed = add_users s s.components [] in
      (
        sort_strings-IsAscending listed (add_users-Distinct s.components [] tt),
        λ u. (
          λ m. elim ((add_users-mem s.components [] u).0 ((sort_strings-mem u listed).0 m)) [
            | inl k ↦ absurd (Memᴰ.not-nil k)
            | inr k ↦ k
          ],
          λ k. (sort_strings-mem u listed).1 ((add_users-mem s.components [] u).1 (inr k)),
        ),
      )
