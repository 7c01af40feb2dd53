-- ===== src/Worker/Laws.antt =====
-- worker/index.mjs: the tokens that `parseRoutedCapability` takes.
use clawsembly_kernel.Prelude.{
  ℕ, ◌≡◌, ◌≢◌, ◌↔◌, refl, sym, ap, ◌∙◌, Bool, true, false, ◌&&◌, Option, none, some, [], ◌∷◌, ◌++◌,
  arith, All, all_iff, ◌==◌, nat_eq, codes_eq, codes, if◌then◌else◌,
}
use clawsembly_kernel.JsText.{Text, is_hex}
use clawsembly_kernel.Broker.{after_prefix}
use clawsembly_kernel.Worker.{
  put_first, cut, is_object_id, is_secret, check_parts, bearer_value, parse_routed_capability,
  routed,
}

-- None of them is the separator.
AreOther : ℕ → Text → Type 0
AreOther c = All (λ x. x ≢ c)

cut-append : (c : ℕ) (a b : Text) → AreOther c a → cut c (a ++ c ∷ b) ≡ some (a, b)
unfolding cut AreOther
cut-append c [] b h = ground (arith, nat_eq.beq_iff c c)
cut-append c (x ∷ a) b (h, rest) =
    let t : (x == c) ≡ false = ground (arith, nat_eq.beq_iff x c) in
    rw t (rw (cut-append c a b rest) refl)

parts-inj :
    {a b c d : Text}
    → ◌≡◌ {A = Option (Text × Text)} (some (a, b)) (some (c, d))
    → (a ≡ c) × (b ≡ d)
parts-inj h = (cc, cc)

append-cut : (c : ℕ) (t a b : Text) → cut c t ≡ some (a, b) → t ≡ a ++ c ∷ b
unfolding cut
append-cut c [] a b h = cc
append-cut c (x ∷ t) a b h = by_test (x == c) refl h (λ a' b'. append-cut c t a' b')
  where
    by_rest :
        (o : Option (Text × Text))
        → cut c t ≡ o
        → put_first x o ≡ some (a, b)
        → ((a' b' : Text) → cut c t ≡ some (a', b') → t ≡ a' ++ c ∷ b')
        → x ∷ t ≡ a ++ c ∷ b
    by_rest none q k tails = cc
    by_rest (some (a', b')) q k tails =
        let (p, r) = parts-inj k in
        let tail = tails a' b' q in rw (← p) (rw (← r) (ap (◌∷◌ x) tail))

    by_test :
        (test : Bool)
        → (x == c) ≡ test
        → (if test then some ([], t) else put_first x (cut c t)) ≡ some (a, b)
        → ((a' b' : Text) → cut c t ≡ some (a', b') → t ≡ a' ++ c ∷ b')
        → x ∷ t ≡ a ++ c ∷ b
    by_test true e k tails =
        let (p, r) = parts-inj k in
        let same : x ≡ c = (nat_eq.beq_iff x c).0 e in rw (← p) (rw (← r) (rw same refl))
    by_test false e k tails = by_rest (cut c t) refl k tails

pub after_prefix-append : (p v : Text) → after_prefix p (p ++ v) ≡ v
unfolding after_prefix
after_prefix-append [] v = refl
after_prefix-append (c ∷ p) v = ground (arith, nat_eq.beq_iff c c, after_prefix-append p v)

append-after_prefix : (p v : Text) → after_prefix p v ≢ [] → v ≡ p ++ after_prefix p v
unfolding after_prefix
append-after_prefix [] v h = refl
append-after_prefix (c ∷ p) [] h = absurd (h refl)
append-after_prefix (c ∷ p) (x ∷ v) h = by_test (c == x) refl h (append-after_prefix p v)
  where
    by_test :
        (test : Bool)
        → (c == x) ≡ test
        → (if test then after_prefix p v else []) ≢ []
        → (after_prefix p v ≢ [] → v ≡ p ++ after_prefix p v)
        → x ∷ v ≡ c ∷ p ++ (if test then after_prefix p v else [])
    by_test true e k rest =
        let same : c ≡ x = (nat_eq.beq_iff c x).0 e in rw same (ap (◌∷◌ x) (rest k))
    by_test false e k rest = absurd (k refl)

is_object_id-AreOther : (id : Text) → is_object_id id ≡ true → AreOther b'.' id
unfolding is_object_id AreOther is_hex
is_object_id-AreOther id h = hex_letters id ((all_iff is_hex id).0 (ground (arith, h)))
  where
    hex_letters : (t : Text) → All (λ x. is_hex x ≡ true) t → All (λ x. x ≢ b'.') t
    hex_letters [] k = tt
    hex_letters (x ∷ t) (k, rest) =
        (λ same. let e : is_hex x ≡ false = rw same refl in cc, hex_letters t rest)

check_parts-some :
    (o : Option (Text × Text)) (id secret : Text)
    → check_parts o ≡ some (id, secret)
    → (o ≡ some (id, secret)) × (is_object_id id ≡ true) × (is_secret secret ≡ true)
check_parts-some none id secret h = cc
check_parts-some (some (a, b)) id secret h = by_test (is_object_id a && is_secret b) refl h
  where
    by_test :
        (test : Bool)
        → (is_object_id a && is_secret b) ≡ test
        → if◌then◌else◌ {A = Option (Text × Text)} test (some (a, b)) none ≡ some (id, secret)
        → ◌≡◌ {A = Option (Text × Text)} (some (a, b)) (some (id, secret))
          × (is_object_id id ≡ true)
          × (is_secret secret ≡ true)
    by_test true e k =
        let (p, q) = parts-inj k in (k, rw (← p) (ground (arith, e)), rw (← q) (ground (arith, e)))
    by_test false e k = cc

routed-filled : (id secret : Text) → routed id secret ≢ []
routed-filled [] secret h = cc
routed-filled (x ∷ id) secret h = cc

bearer_value-routed :
    (authorization : Option Text) (id secret : Text)
    → bearer_value authorization ≡ routed id secret
    → authorization ≡ some (codes "Bearer " ++ routed id secret)
bearer_value-routed none id secret h = absurd (routed-filled id secret (sym h))
bearer_value-routed (some value) id secret h =
    let filled : after_prefix (codes "Bearer ") value ≢ [] =
      λ e. routed-filled id secret (sym h ∙ e) in
    ap some (append-after_prefix (codes "Bearer ") value filled ∙ ap (λ t. codes "Bearer " ++ t) h)

routed-parse :
    (id secret : Text)
    → is_object_id id ≡ true
    → is_secret secret ≡ true
    → parse_routed_capability (some (codes "Bearer " ++ routed id secret)) ≡ some (id, secret)
unfolding parse_routed_capability
routed-parse id secret i k =
    rw (after_prefix-append (codes "Bearer ") (routed id secret))
      (rw (cut-append b'.' id secret (is_object_id-AreOther id i)) (rw i (rw k refl)))

parse-routed :
    (authorization : Option Text) (id secret : Text)
    → parse_routed_capability authorization ≡ some (id, secret)
    → (authorization ≡ some (codes "Bearer " ++ routed id secret))
      × (is_object_id id ≡ true)
      × (is_secret secret ≡ true)
unfolding parse_routed_capability
parse-routed authorization id secret h =
    let (found, i, k) = check_parts-some (cut b'.' (bearer_value authorization)) id secret h in
    (bearer_value-routed authorization id secret (append-cut b'.' _ id secret found), i, k)

-- A capability is read out of a header exactly if that is a bearer token of an object's id, a dot
-- and a secret of the accepted form.
pub parse_routed_capability_iff :
    (authorization : Option Text) (id secret : Text)
    → (parse_routed_capability authorization ≡ some (id, secret)) ↔ (
        (authorization ≡ some (codes "Bearer " ++ routed id secret))
        × (is_object_id id ≡ true)
        × (is_secret secret ≡ true))
parse_routed_capability_iff authorization id secret = (
  parse-routed authorization id secret,
  λ (h, i, k). ap parse_routed_capability h ∙ routed-parse id secret i k,
)
