-- ===== src/Access/Sections.antt =====
-- Sections of an access control list: what their lines grant, and lists of sections.
use mathlib.Core.List.Memᴰ
use mathlib.Core.List.{Memᴰ}
use text.Mathlib.TextLemmas.{nil-append, cons-append}
use drones.Common.{
  String, append, Bool, false, Option, none, some, List, [], ◌∷◌, ◌++◌, ◌≡◌, ◌↔◌, if◌then◌else◌,
  refl, subst, arith, Bool-cases, inl, inr,
}
use drones.Access.{leb_text, sort_strings, insert_text}
use drones.Access.Reading.{Access, may_read, may_write, Rule, cut_prefix, topic_rules, read_lines}

pub cut_prefix-append : (p t : String) → cut_prefix (append p t) p ≡ some t
unfolding cut_prefix
cut_prefix-append String.[] t = rw (nil-append t) refl
cut_prefix-append (String.◌∷◌ c p) t =
    rw (cons-append c p t) (ground (arith, cut_prefix-append p t))

-- a line that begins with the letter t has no user
not_user : (l t : String) → cut_prefix (append (String.◌∷◌ "t" l) t) "user " ≡ none
unfolding cut_prefix
not_user l t = rw (cons-append "t" l t) refl

abbrev pub rule : String → Access → String → Rule
rule u a t = record { user = u; access = a; topic = t }

pub read_user :
    (u : Option String) (v : String) (ls : List String)
    → read_lines u (append "user " v ∷ ls) ≡ read_lines (some v) ls
unfolding read_lines
read_user u v ls = rw (cut_prefix-append "user " v, read_lines) refl

pub read_read :
    (u t : String) (ls : List String)
    → read_lines (some u) (append "topic read " t ∷ ls) ≡ rule u may_read t ∷ read_lines (some u) ls
unfolding read_lines topic_rules
read_read u t ls =
    rw (not_user "opic read " t, cut_prefix-append "topic read " t, read_lines, topic_rules) refl

-- a line that grants writing does not grant reading
not_read : (t : String) → cut_prefix (append "topic write " t) "topic read " ≡ none
unfolding cut_prefix
not_read t =
    rw
      (
        cons-append "t" "opic write " t,
        cons-append "o" "pic write " t,
        cons-append "p" "ic write " t,
        cons-append "i" "c write " t,
        cons-append "c" " write " t,
        cons-append " " "write " t,
        cons-append "w" "rite " t,
      )
      refl

pub read_write :
    (u t : String) (ls : List String)
    → read_lines (some u) (append "topic write " t ∷ ls)
      ≡ rule u may_write t ∷ read_lines (some u) ls
unfolding read_lines topic_rules
read_write u t ls =
    rw
      (
        not_user "opic write " t,
        not_read t,
        cut_prefix-append "topic write " t,
        read_lines,
        topic_rules,
      )
      refl

-- The rules of the items that are not skipped.
unfoldable pub gather : {A : Type 0} → (A → Bool) → (A → List Rule) → List A → List Rule
gather skip f [] = []
gather skip f (x ∷ xs) = let rest = gather skip f xs in if skip x then rest else f x ++ rest

module _ {A : Type 0} (skip : A → Bool) (f : A → List Rule) where
  abbrev pub Gathered : Rule → List A → Type 0
  Gathered r xs = (x : A) × Memᴰ x xs × (skip x ≡ false) × Memᴰ r (f x)

  later : (r : Rule) (x : A) (xs : List A) → Gathered r xs → Gathered r (x ∷ xs)
  later r x xs (y, m, k, d) = (y, Memᴰ.tail m, k, d)

  pub gather-mem : (r : Rule) (xs : List A) → Memᴰ r (gather skip f xs) → Gathered r xs
  unfolding gather
  gather-mem r [] m = absurd (Memᴰ.not-nil m)
  gather-mem r (x ∷ xs) m = elim (Bool-cases (skip x)) [
    | inl s ↦ later r x xs (gather-mem r xs (rw s at m))
    | inr s ↦ elim (Memᴰ.append_cases (f x) (rw s at m)) [
      | inl here ↦ (x, Memᴰ.head refl, s, here)
      | inr there ↦ later r x xs (gather-mem r xs there)
    ]
  ]

  pub mem-gather : (r : Rule) (xs : List A) → Gathered r xs → Memᴰ r (gather skip f xs)
  unfolding gather
  mem-gather r [] (y, m, k, d) = absurd (Memᴰ.not-nil m)
  mem-gather r (x ∷ xs) (y, m, k, d) = elim (Memᴰ.cases_cons m) [
    | inl same ↦
        let s : skip x ≡ false = rw (← same) k in
        rw s (Memᴰ.append_left _ (subst (λ z. Memᴰ r (f z)) same d))
    | inr below ↦
        let there = mem-gather r xs (y, below, k, d) in
        elim (Bool-cases (skip x)) [
          | inl s ↦ rw s there
          | inr s ↦ rw s (Memᴰ.append_right (f x) there)
        ]
  ]

insert_text-mem : (c x : String) (ys : List String) → Memᴰ c (insert_text x ys) ↔ Memᴰ c (x ∷ ys)
unfolding insert_text
insert_text-mem c x [] = (λ m. m, λ m. m)
insert_text-mem c x (y ∷ ys) = elim (Bool-cases (leb_text x y)) [
  | inl le ↦ rw le (λ m. m, λ m. m)
  | inr gt ↦ rw gt (
    λ m. elim (Memᴰ.cases_cons m) [
      | inl e ↦ Memᴰ.tail (Memᴰ.head e)
      | inr below ↦ elim (Memᴰ.cases_cons ((insert_text-mem c x ys).0 below)) [
        | inl e ↦ Memᴰ.head e
        | inr k ↦ Memᴰ.tail (Memᴰ.tail k)
      ]
    ],
    λ m. elim (Memᴰ.cases_cons m) [
      | inl e ↦ Memᴰ.tail ((insert_text-mem c x ys).1 (Memᴰ.head e))
      | inr below ↦ elim (Memᴰ.cases_cons below) [
        | inl e ↦ Memᴰ.head e
        | inr k ↦ Memᴰ.tail ((insert_text-mem c x ys).1 (Memᴰ.tail k))
      ]
    ],
  )
]

pub sort_strings-mem : (c : String) (xs : List String) → Memᴰ c (sort_strings xs) ↔ Memᴰ c xs
unfolding sort_strings
sort_strings-mem c [] = (λ m. m, λ m. m)
sort_strings-mem c (x ∷ xs) =
    let i = insert_text-mem c x (sort_strings xs) in
    let s = sort_strings-mem c xs in
    (
      λ m. elim (Memᴰ.cases_cons (i.0 m)) [ inl e ↦ Memᴰ.head e | inr k ↦ Memᴰ.tail (s.0 k) ],
      λ m. i.1 (elim (Memᴰ.cases_cons m) [ inl e ↦ Memᴰ.head e | inr k ↦ Memᴰ.tail (s.1 k) ]),
    )
