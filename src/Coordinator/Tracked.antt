-- ===== src/Coordinator/Tracked.antt =====
-- What `wizardNextInFlight`, `wizardNextWaiters` and the maps of requests have to do with one
-- another.
use clawsembly_kernel.Prelude.{
  ◌≡◌, ◌≢◌, refl, sym, ◌∙◌, String, true, false, Option, none, some, List, [], arith, ◌==◌,
  string_eq, ==_refl, ==_ne, Bool-cases, inl, inr,
}
use clawsembly_kernel.Prelude.JsMap
use clawsembly_kernel.Prelude.JsSet
use clawsembly_kernel.Coordinator.{Method, wizard_next, NextKey, key_eq, Waiter, Coordinator}

-- A request of the key is with the owner.
pub record Outstanding (methods : List (String × Method)) (keys : List (String × NextKey))
    (key : NextKey) : Type 0 where
  pub id : String
  pub keyed : JsMap.get id keys ≡ some key
  pub asked : JsMap.get id methods ≡ some wizard_next

-- Apart from the key `x`: a key with waiters is in flight, a key in flight has an outstanding
-- request, and the request ids that have a key are those of `wizard.next`.
pub record Tracked (x : Option NextKey) (methods : List (String × Method))
    (keys : List (String × NextKey)) (in_flight : List NextKey)
    (waiters : List (NextKey × List Waiter)) : Type 0 where
  pub waited :
      (key : NextKey) → x ≢ some key → JsMap.get key waiters ≢ none → JsSet.has key in_flight ≡ true
  pub flying :
      (key : NextKey) → x ≢ some key → JsSet.has key in_flight ≡ true → Outstanding methods keys key
  pub named :
      (id : String) (key : NextKey)
      → JsMap.get id keys ≡ some key
      → JsMap.get id methods ≡ some wizard_next

abbrev pub IsTrackedBut : Option NextKey → Coordinator → Type 0
IsTrackedBut x s =
    Tracked x s.request_methods s.request_wizard_next_keys s.wizard_next_in_flight
      s.wizard_next_waiters

-- No waiter is stranded: each waits for a request that the owner still has to answer.
abbrev pub IsTracked : Coordinator → Type 0
IsTracked = IsTrackedBut none

pub Tracked-empty :
    (x : Option NextKey) (methods : List (String × Method)) → Tracked x methods [] [] []
unfolding JsMap.get JsSet.has
Tracked-empty x methods = record {
  waited = λ key n w. absurd (w refl);
  flying = λ key n w. absurd (false_true w);
  named = λ id key w. absurd (none_some w);
}
  where
    false_true : false ≡ true → ⊥
    false_true e = cc

    none_some : {k : NextKey} → none ≡ some k → ⊥
    none_some e = cc

module _ {methods : List (String × Method)} {keys : List (String × NextKey)}
    {in_flight : List NextKey} {waiters : List (NextKey × List Waiter)} where
  -- Taking a request away leaves its key, if it has one, without a request.
  pub Tracked-take :
      (id : String)
      → Tracked none methods keys in_flight waiters
      → Tracked
          (JsMap.get id keys)
          (JsMap.delete id methods)
          (JsMap.delete id keys)
          in_flight
          waiters
  Tracked-take id t = record {
    waited = λ key n w. t.waited key (λ e. cc) w;
    flying = λ key n w. kept key n (t.flying key (λ e. cc) w);
    named = λ j key e. named_kept j key e;
  }
    where
      kept :
          (key : NextKey)
          → JsMap.get id keys ≢ some key
          → Outstanding methods keys key
          → Outstanding (JsMap.delete id methods) (JsMap.delete id keys) key
      kept key n o =
          let other = ==_ne id o.id (λ e. n (rw e o.keyed)) in
          record {
            id = o.id;
            keyed = JsMap.get-delete id o.id keys ∙ rw other o.keyed;
            asked = JsMap.get-delete id o.id methods ∙ rw other o.asked;
          }

      named_kept :
          (j : String) (key : NextKey)
          → JsMap.get j (JsMap.delete id keys) ≡ some key
          → JsMap.get j (JsMap.delete id methods) ≡ some wizard_next
      named_kept j key e =
          ground (arith, JsMap.get-delete id j keys, JsMap.get-delete id j methods, t.named j key)

  -- The key that was taken is no longer in flight, and its waiters are gone.
  pub Tracked-land :
      (key : NextKey)
      → Tracked (some key) methods keys in_flight waiters
      → Tracked (some key) methods keys (JsSet.delete key in_flight) waiters
  Tracked-land key t = record {
    waited = λ k n w.
        JsSet.has-delete key k in_flight ∙ rw (==_ne key k (λ e. n (rw e refl))) (t.waited k n w);
    flying = λ k n w. t.flying k n (still k w);
    named = t.named;
  }
    where
      still :
          (k : NextKey)
          → JsSet.has k (JsSet.delete key in_flight) ≡ true
          → JsSet.has k in_flight ≡ true
      still k w = ground (arith, JsSet.has-delete key k in_flight)

  pub Tracked-close :
      (key : NextKey)
      → JsSet.has key in_flight ≡ false
      → Tracked (some key) methods keys in_flight waiters
      → Tracked none methods keys in_flight (JsMap.delete key waiters)
  Tracked-close key landed t = record { waited = waited'; flying = flying'; named = t.named }
    where
      waited' :
          (k : NextKey)
          → none ≢ some k
          → JsMap.get k (JsMap.delete key waiters) ≢ none
          → JsSet.has k in_flight ≡ true
      waited' k n w = elim (Bool-cases (key == k)) [
        | inl same ↦ absurd (w (JsMap.get-delete key k waiters ∙ rw same refl))
        | inr other ↦ t.waited k (ne k other) (λ e. w (JsMap.get-delete key k waiters ∙ rw other e))
      ]
        where
          ne : (k : NextKey) → (key == k) ≡ false → some key ≢ some k
          ne k other e = let same : key ≡ k = cc in cc ((key_eq.beq_iff key k).1 same)

      flying' :
          (k : NextKey) → none ≢ some k → JsSet.has k in_flight ≡ true → Outstanding methods keys k
      flying' k n w = t.flying k (ne w) w
        where
          ne : {k : NextKey} → JsSet.has k in_flight ≡ true → some key ≢ some k
          ne w e = cc

  -- A request with a fresh id is written down under its key, which is now in flight.
  pub Tracked-ask :
      (id : String) (key : NextKey)
      → JsMap.get id keys ≡ none
      → Tracked none methods keys in_flight waiters
      → Tracked none
          (JsMap.set id wizard_next methods)
          (JsMap.set id key keys)
          (JsSet.add key in_flight)
          waiters
  Tracked-ask id key fresh t = record {
    waited = λ k n w.
        ground (arith, JsSet.has-add key k in_flight, key_eq.beq_iff key k, t.waited k n w);
    flying = flying';
    named = named';
  }
    where
      other : (j : String) (k : NextKey) → JsMap.get j keys ≡ some k → (id == j) ≡ false
      other j k e = ==_ne id j (λ q. clash (sym fresh ∙ rw q e))
        where
          clash : none ≡ some k → ⊥
          clash e = cc

      older :
          (k : NextKey)
          → Outstanding methods keys k
          → Outstanding (JsMap.set id wizard_next methods) (JsMap.set id key keys) k
      older k o = record {
        id = o.id;
        keyed = JsMap.get-set id o.id key keys ∙ rw (other o.id k o.keyed) o.keyed;
        asked = JsMap.get-set id o.id wizard_next methods ∙ rw (other o.id k o.keyed) o.asked;
      }

      newest :
          (k : NextKey)
          → key ≡ k
          → Outstanding (JsMap.set id wizard_next methods) (JsMap.set id key keys) k
      newest k same = record {
        id = id;
        keyed = JsMap.get-set id id key keys ∙ rw (==_refl id, same) refl;
        asked = JsMap.get-set id id wizard_next methods ∙ rw (==_refl id) refl;
      }

      flying' :
          (k : NextKey)
          → none ≢ some k
          → JsSet.has k (JsSet.add key in_flight) ≡ true
          → Outstanding (JsMap.set id wizard_next methods) (JsMap.set id key keys) k
      flying' k n w = elim (Bool-cases (key == k)) [
        | inl same ↦ newest k ((key_eq.beq_iff key k).0 same)
        | inr differ ↦ older k (t.flying k n (earlier differ))
      ]
        where
          earlier : (key == k) ≡ false → JsSet.has k in_flight ≡ true
          earlier differ = ground (arith, JsSet.has-add key k in_flight)

      named' :
          (j : String) (k : NextKey)
          → JsMap.get j (JsMap.set id key keys) ≡ some k
          → JsMap.get j (JsMap.set id wizard_next methods) ≡ some wizard_next
      named' j k e =
          ground (
            arith,
            JsMap.get-set id j key keys,
            JsMap.get-set id j wizard_next methods,
            t.named j k,
          )

  -- A request without a key leaves the keys as they are.
  pub Tracked-register :
      (id : String) (method : Method)
      → JsMap.get id keys ≡ none
      → Tracked none methods keys in_flight waiters
      → Tracked none (JsMap.set id method methods) keys in_flight waiters
  Tracked-register id method fresh t = record {
    waited = t.waited;
    flying = λ k n w. older k (t.flying k n w);
    named = λ j k e. JsMap.get-set id j method methods ∙ rw (other j k e) (t.named j k e);
  }
    where
      other : (j : String) (k : NextKey) → JsMap.get j keys ≡ some k → (id == j) ≡ false
      other j k e = ==_ne id j (λ q. clash (sym fresh ∙ rw q e))
        where
          clash : none ≡ some k → ⊥
          clash e = cc

      older :
          (k : NextKey)
          → Outstanding methods keys k
          → Outstanding (JsMap.set id method methods) keys k
      older k o = record {
        id = o.id;
        keyed = o.keyed;
        asked = JsMap.get-set id o.id method methods ∙ rw (other o.id k o.keyed) o.asked;
      }

  -- A further waiter joins a key in flight.
  pub Tracked-wait :
      (key : NextKey) (ws : List Waiter)
      → JsSet.has key in_flight ≡ true
      → Tracked none methods keys in_flight waiters
      → Tracked none methods keys in_flight (JsMap.set key ws waiters)
  Tracked-wait key ws flies t = record { waited = waited'; flying = t.flying; named = t.named }
    where
      waited' :
          (k : NextKey)
          → none ≢ some k
          → JsMap.get k (JsMap.set key ws waiters) ≢ none
          → JsSet.has k in_flight ≡ true
      waited' k n w = elim (Bool-cases (key == k)) [
        | inl same ↦ rw (← (key_eq.beq_iff key k).0 same) flies
        | inr other ↦ t.waited k n (λ e. w (JsMap.get-set key k ws waiters ∙ rw other e))
      ]
