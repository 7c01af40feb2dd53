-- ===== src/Worker/EndToEnd.antt =====
-- worker/index.mjs and worker/byok-broker.mjs: from the issue of a capability to its first use, and
-- which broker a request reaches.
use clawsembly_kernel.Prelude.{
  ◌+◌, ◌<◌, ◌≡◌, ◌≢◌, refl, ap, ◌∙◌, Bool, true, false, not, ◌⊎◌, inl, inr, Option, none, some, [],
  ◌∷◌, ◌++◌, ◌==◌, ==_ne, ==_refl, nat_eq, codes_eq, string_eq, codes, if◌then◌else◌,
}
use clawsembly_kernel.Js.{Js, property, is_true}
use clawsembly_kernel.JsText.{Text}
use clawsembly_kernel.Bridge.Compare.{AreUnits}
use clawsembly_kernel.Broker.{
  Store, original, upstream_of, validate_completion, ttl_ms, is_post, bearer_token, go,
}
use clawsembly_kernel.Broker.Issue.{IssueInput, issue, issue_input}
use clawsembly_kernel.Broker.Poll.{PollTimes}
use clawsembly_kernel.Broker.Forward.{completion_kind, forward_model_request}
use clawsembly_kernel.Broker.World.Admission.{IsReadable}
use clawsembly_kernel.Broker.World.First.{forward_model_request-issue}
use clawsembly_kernel.Worker.{
  Incoming, is_same_origin, is_object_id, is_secret, parse_routed_capability, routed,
}
use clawsembly_kernel.Worker.Capability.{
  Objects, put_store, Platform, Outcome, Routed, model, revocation, poll, creating_request,
  model_request, call_broker, to_object, refuse, to_capability, issue_byok_capability,
  route_byok_capability,
}
use clawsembly_kernel.Worker.Laws.{parse_routed_capability_iff, after_prefix-append}

-- Stores that differ at most where `id` is.
DiffersAt : Text → Objects → Objects → Type 0
DiffersAt id objects after = (j : Text) → j ≢ id → after j ≡ objects j

put_store-DiffersAt :
    (id : Text) (store : Store) (objects : Objects)
    → DiffersAt id objects (put_store id store objects)
unfolding put_store DiffersAt
put_store-DiffersAt id store objects j h = let t = ==_ne j id h in rw t refl

put_store-same :
    (id : Text) (store : Store) (objects : Objects) → put_store id store objects id ≡ store
unfolding put_store
put_store-same id store objects = let t = ==_refl id in rw t refl

call_broker-DiffersAt :
    (platform : Platform) (path : Routed) (object id secret : Text) (request : Incoming)
    (objects : Objects)
    → DiffersAt object objects (call_broker platform path object id secret request objects).objects
unfolding call_broker
call_broker-DiffersAt platform (model kind) object id secret request objects =
    put_store-DiffersAt object _ objects
call_broker-DiffersAt platform revocation object id secret request objects =
    put_store-DiffersAt object _ objects
call_broker-DiffersAt platform poll object id secret request objects =
    put_store-DiffersAt object _ objects

-- No broker's store has changed, and nothing went to a provider.
abbrev pub IsRefused : Objects → Outcome → Type 0
IsRefused objects outcome = ((j : Text) → outcome.objects j ≡ objects j) × (outcome.sent ≡ [])

-- The broker whose id stands in the token was called, and no other store has changed.
abbrev pub IsRouted : Platform → Routed → Incoming → Objects → Outcome → Type 0
IsRouted platform path request objects outcome =
    (id : Text) × (secret : Text) × (object : Text) × (request.authorization
      ≡ some (codes "Bearer " ++ routed id secret))
    × (platform.id_from_string id ≡ some object)
    × (outcome ≡ call_broker platform path object id secret request objects)
    × ((j : Text) → j ≢ object → outcome.objects j ≡ objects j)

module _ (platform : Platform) (path : Routed) (request : Incoming) (objects : Objects) where
  abbrev IsEither : Outcome → Type 0
  IsEither outcome = IsRefused objects outcome ⊎ IsRouted platform path request objects outcome

  object-IsEither :
      (id secret : Text) (o : Option Text)
      → request.authorization ≡ some (codes "Bearer " ++ routed id secret)
      → platform.id_from_string id ≡ o
      → IsEither (to_object platform path id secret request objects o)
  unfolding DiffersAt
  object-IsEither id secret none h q = inl (λ j. refl, refl)
  object-IsEither id secret (some object) h q = inr (
    id,
    secret,
    object,
    h,
    q,
    refl,
    call_broker-DiffersAt platform path object id secret request objects,
  )

  capability-IsEither :
      (o : Option (Text × Text))
      → parse_routed_capability request.authorization ≡ o
      → IsEither (to_capability platform path request objects o)
  capability-IsEither none q = inl (λ j. refl, refl)
  capability-IsEither (some (id, secret)) q =
      object-IsEither id secret (platform.id_from_string id)
        ((parse_routed_capability_iff request.authorization id secret).0 q).0 refl

  -- A routed request is refused, with every store as it was and nothing sent, or its bearer token
  -- is the id of a broker, a dot and a secret, and it calls that broker and changes no other store.
  pub route_byok_capability-IsRefused :
      IsRefused objects (route_byok_capability platform path request objects)
      ⊎ IsRouted platform path request objects (route_byok_capability platform path request objects)
  unfolding route_byok_capability
  route_byok_capability-IsRefused = by_method (request.method == "POST")
    where
      by_namespace :
          (test : Bool)
          → IsEither (
              if not test
              then refuse platform objects "byok_broker_unavailable" 503
              else to_capability platform path request objects
                  (parse_routed_capability request.authorization))
      by_namespace false = inl (λ j. refl, refl)
      by_namespace true = capability-IsEither (parse_routed_capability request.authorization) refl

      by_method :
          (test : Bool)
          → IsEither (
              if not test
              then refuse platform objects "method_not_allowed" 405
              else if not platform.namespace
              then refuse platform objects "byok_broker_unavailable" 503
              else to_capability platform path request objects
                  (parse_routed_capability request.authorization))
      by_method false = inl (λ j. refl, refl)
      by_method true = by_namespace platform.namespace

issue_byok_capability-store :
    (platform : Platform) (request : Incoming) (objects : Objects)
    → request.method ≡ "POST"
    → is_same_origin request ≡ true
    → platform.namespace ≡ true
    → (issue_byok_capability platform request objects).objects platform.new_id
      ≡ (issue platform.broker
          (creating_request request)
          platform.secrets
          platform.times.now
          (objects platform.new_id)).0
unfolding issue_byok_capability
issue_byok_capability-store platform request objects post same brokers =
    let posts : (request.method == "POST") ≡ true =
      (string_eq.beq_iff request.method "POST").1 post in
    rw posts (rw same (rw brokers (put_store-same platform.new_id _ objects)))

route_byok_capability-sent :
    (platform : Platform) (usage : Incoming) (objects : Objects) (id secret object : Text)
    → usage.method ≡ "POST"
    → platform.namespace ≡ true
    → parse_routed_capability usage.authorization ≡ some (id, secret)
    → platform.id_from_string id ≡ some object
    → (route_byok_capability platform (model completion_kind) usage objects).sent
      ≡ (forward_model_request platform.broker completion_kind
          (model_request secret usage)
          platform.times.now
          platform.times.settled
          (objects object)).2
unfolding route_byok_capability call_broker
route_byok_capability-sent platform usage objects id secret object post brokers parsed found =
    let posts : (usage.method == "POST") ≡ true = (string_eq.beq_iff usage.method "POST").1 post in
    rw posts (rw brokers (rw parsed (rw found refl)))

posts_always : (secret : Text) (usage : Incoming) → is_post (model_request secret usage) ≡ true
unfolding is_post
posts_always secret usage = refl

bearer_token-model_request :
    (secret : Text) (usage : Incoming) → bearer_token (model_request secret usage) ≡ secret
unfolding bearer_token
bearer_token-model_request secret usage = after_prefix-append (codes "Bearer ") secret

-- After a page of the same origin was issued a capability for an API key, a completion request with
-- the token of that capability and for the chosen model, until it expires, goes once to the chosen
-- provider, with the key that was given and its own body, if ids and secrets are of the form that
-- the worker accepts and digests consist of 16-bit code units.
pub route_byok_capability-issue_byok_capability :
    (platform : Platform) (later : PollTimes) (request usage : Incoming) (objects : Objects)
    (input : IssueInput) (value : Js)
    → request.method ≡ "POST"
    → is_same_origin request ≡ true
    → platform.namespace ≡ true
    → issue_input platform.broker (creating_request request) (objects platform.new_id) ≡ go input
    → is_object_id platform.new_id ≡ true
    → is_secret platform.secrets.guest ≡ true
    → platform.id_from_string platform.new_id ≡ some platform.new_id
    → AreUnits (platform.broker.digest platform.secrets.guest)
    → usage.method ≡ "POST"
    → usage.authorization ≡ some (codes "Bearer " ++ routed platform.new_id platform.secrets.guest)
    → IsReadable platform.broker (model_request platform.secrets.guest usage) value
    → validate_completion value input.model ≡ true
    → later.now < platform.times.now + ttl_ms
    → (route_byok_capability
        (record platform { times = later })
        (model completion_kind)
        usage
        (issue_byok_capability platform request objects).objects).sent
      ≡ record {
        url = upstream_of input.provider;
        credential = some input.api_key;
        account_id = none;
        accepts_stream = is_true (property value "stream");
        body = original usage.body;
      }
        ∷ []
route_byok_capability-issue_byok_capability platform later request usage objects input value post
      same brokers e id secret found units posts bearer readable valid live =
    let object = platform.new_id in
    let guest = platform.secrets.guest in
    let after = (issue_byok_capability platform request objects).objects in
    let parsed =
      (parse_routed_capability_iff usage.authorization object guest).1 (bearer, id, secret) in
    let stored = issue_byok_capability-store platform request objects post same brokers in
    let called =
      route_byok_capability-sent (record platform { times = later }) usage after object guest object
        posts brokers parsed found in
    called
    ∙ ap
        (λ store.
          (forward_model_request platform.broker completion_kind (model_request guest usage)
            later.now later.settled store).2)
        stored
    ∙ forward_model_request-issue platform.broker (creating_request request)
        (model_request guest usage) platform.secrets platform.times.now later.now later.settled
        (objects object) input value e units (posts_always guest usage)
        (bearer_token-model_request guest usage) readable valid live
