-- ===== src/Broker/Waiting.antt =====
-- Request of both brokers: one request among the other goroutines that use the same table.
use drones.Common.{
  ℕ, ◌<◌, String, Option, none, some, List, [], ◌∷◌, ◌==◌, eq_iff, eqb, if◌then◌else◌, ◌≡◌, ◌≢◌,
  subst, arith, inl, inr, Bool-cases,
}
use drones.Message.{Fields, get_string}
use drones.Bus.{Result, ok, err}
use drones.Broker.Table.{
  lookup, remove, store, Table, held, call_handler, place, open_request, Action, arrives, opens,
  closes, Moment, other, looks, done, Course,
}

abbrev pub published_then : {A : Type 0} → Option String → Result A → Result A
published_then (some e) later = err e
published_then none later = later

module _ {F H : Type 0} where
  -- What a request for the identifier id has received, after one more action.
  abbrev pub received : String → Option (Fields F) → Action F H → Option (Fields F)
  received id (some m) a = some m
  received id none (arrives topic (some m)) =
      if get_string m "correlation_id" == id then some m else none
  received id none _ = none

  abbrev pub received_all : String → Option (Fields F) → List (Action F H) → Option (Fields F)
  received_all id got [] = got
  received_all id got (a ∷ as') = received_all id (received id got a) as'

  -- What a request answers that knows nothing but the message it has received.
  abbrev pub awaited : String → String → Option (Fields F) → List (Moment F H) → Result (Fields F)
  awaited timed_out id got [] = err timed_out
  awaited timed_out id got (other a ∷ ms) = awaited timed_out id (received id got a) ms
  awaited timed_out id (some m) (looks ∷ ms) = ok m
  awaited timed_out id none (looks ∷ ms) = awaited timed_out id none ms
  awaited timed_out id got (done e ∷ ms) = err e

  -- The first message with the identifier id that arrives while the request waits, or the error.
  abbrev pub first_reply : Course F H → String → Result (Fields F)
  first_reply c id =
      published_then c.refused (awaited c.timed_out id (received_all id none c.during) c.moments)

  -- Another request's action, if it is one of a request.
  abbrev pub Foreign : String → Action F H → Type 0
  Foreign id (opens k) = k ≢ id
  Foreign id (closes k) = k ≢ id
  Foreign id _ = Unit {0}

  abbrev pub ForeignMoment : String → Moment F H → Type 0
  ForeignMoment id (other a) = Foreign id a
  ForeignMoment id _ = Unit {0}

  -- The channel ch belongs to the request for id alone and is empty.
  pub record Waits (id : String) (ch : ℕ) (t : Table F H) : Type 0 where
    pub vacant : held t.channels ch ≡ none
    pub listed : lookup t.pending id ≡ some ch
    pub alone : (k : String) → lookup t.pending k ≡ some ch → k ≡ id
    pub made : ch < t.next

  abbrev pub Tied : String → ℕ → Option (Fields F) → Table F H → Type 0
  Tied id ch none t = Waits id ch t
  Tied id ch (some m) t = held t.channels ch ≡ some m

module _ {A : Type 0} where
  pub lookup-remove :
      (m : List (String × A)) (k j : String)
      → lookup (remove m k) j ≡ (if k == j then none else lookup m j)
  unfolding lookup remove
  lookup-remove [] k j = ground arith
  lookup-remove ((i, v) ∷ m) k j =
      ground (arith, lookup-remove m k j, eq_iff i k, eq_iff i j, eq_iff k j)

module _ {F H : Type 0} (id : String) (ch : ℕ) where
  pub place-keeps :
      (o : Option (Fields F)) (c : ℕ) (m n : Fields F) (t : Table F H)
      → held t.channels c ≡ o
      → held t.channels ch ≡ some m
      → held (place o c n t).channels ch ≡ some m
  unfolding held
  place-keeps (some k) c m n t e h = h
  place-keeps none c m n t e h = elim (Bool-cases (eqb c ch)) [
    | inl same ↦ absurd (
        let at_ch : held t.channels ch ≡ none =
          subst (λ x. held t.channels x ≡ none) (ground (arith, same)) e in
        ground (arith, at_ch, h))
    | inr differs ↦ rw differs h
  ]

  pub place-other :
      (o : Option (Fields F)) (c : ℕ) (n : Fields F) (t : Table F H)
      → c ≢ ch
      → Waits id ch t
      → Waits id ch (place o c n t)
  unfolding held
  place-other (some k) c n t ne w = w
  place-other none c n t ne w = record {
    vacant = ground (arith, w.vacant);
    listed = w.listed;
    alone = w.alone;
    made = w.made;
  }

  pub call_handler-Waits :
      (m : Fields F) (h : Option H) (t : Table F H)
      → Waits id ch t
      → Waits id ch (call_handler m h t)
  unfolding call_handler
  call_handler-Waits m none t w = w
  call_handler-Waits m (some h) t w = record {
    vacant = w.vacant;
    listed = w.listed;
    alone = w.alone;
    made = w.made;
  }

  pub call_handler-keeps :
      (m n : Fields F) (h : Option H) (t : Table F H)
      → held t.channels ch ≡ some m
      → held (call_handler n h t).channels ch ≡ some m
  unfolding call_handler
  call_handler-keeps m n none t e = e
  call_handler-keeps m n (some h) t e = e

  pub remove-Waits :
      (k : String) (t : Table F H)
      → k ≢ id
      → Waits id ch t
      → Waits id ch (record t { pending = remove t.pending k })
  remove-Waits k t ne w = record {
    vacant = w.vacant;
    listed = ground (arith, lookup-remove t.pending k id, eq_iff k id, w.listed);
    alone = λ j e. w.alone j (ground (arith, lookup-remove t.pending k j, e));
    made = w.made;
  }

  pub open-Waits :
      (k : String) (t : Table F H) → k ≢ id → Waits id ch t → Waits id ch (open_request k t)
  unfolding open_request lookup store
  open-Waits k t ne w = record {
    vacant = w.vacant;
    listed = ground (arith, eq_iff k id, w.listed, lookup-remove t.pending k id);
    alone = λ j e. elim (Bool-cases (k == j)) [
      | inl same ↦ absurd (ground (arith, same, e, w.made))
      | inr differs ↦ w.alone j (ground (arith, differs, e, lookup-remove t.pending k j))
    ];
    made = ground (arith, w.made);
  }
