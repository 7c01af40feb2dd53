-- ===== src/Broker/World/Entitled.antt =====
-- worker/byok-broker.mjs: what a model request is let through for, in the words of its contract.
use clawsembly_kernel.Prelude.{
  ℕ, ◌≤◌, ◌<◌, ◌≡◌, refl, ap, Bool, true, false, not, ◌&&◌, ◌↔◌, Option, none, some, [], ◌∷◌, arith,
  length, codes, map, take, nat_eq, codes_eq, string_eq, list_beq,
}
use clawsembly_kernel.JsText.{Text}
use clawsembly_kernel.Byok.{ApiPath, chat_completions, responses}
use clawsembly_kernel.Bridge.Compare.{AreUnits}
use clawsembly_kernel.Broker.{
  AuthType, api_key_auth, openai_oauth, SessionState, pending, ready, Session, Store, Request, Env,
  go, is_post, bearer_token, digest_equal, is_truthy, is_within, or_empty, to_lower,
  has_prefix_lower,
}
use clawsembly_kernel.Broker.Poll.{is_ready}
use clawsembly_kernel.Broker.Forward.{
  Kind, completion_kind, responses_kind, Parsed, serves, has_credential, has_credential_of,
  is_usable, check_request,
}
use clawsembly_kernel.Broker.World.Valid.{
  IsRequestFor, key_of, is_valid_request_iff, digest_equal_iff,
}
use clawsembly_kernel.Broker.World.Admission.{
  IsAdmitted, check_request-IsAdmitted, IsAdmitted-check_request,
}

-- A text is there and is not empty.
abbrev pub IsGiven : Option Text → Type 0
IsGiven o = (c : ℕ) × (t : Text) × (o ≡ some (c ∷ t))

-- A key, or both tokens of an account.
abbrev pub HasCredential : AuthType → Session → Type 0
HasCredential api_key_auth s = IsGiven s.api_key
HasCredential openai_oauth s = IsGiven s.access_token × IsGiven s.refresh_token

abbrev pub path_of : Kind → ApiPath
path_of completion_kind = chat_completions
path_of responses_kind = responses

abbrev pub IsShort : Option ℕ → Type 0
IsShort none = Unit
IsShort (some n) = n ≤ 2097152

-- A request that a session entitles to.
pub record IsEntitled (env : Env) (kind : Kind) (request : Request) (now : ℕ) (store : Store)
    (parsed : Parsed) (s : Session) : Type 0 where
  pub method : request.method ≡ "POST"
  pub current : store.session ≡ some s
  pub kept : s.revoked ≡ false
  pub state : s.state ≡ ready
  pub credential : HasCredential s.auth_type s
  pub path : s.api_path ≡ path_of kind
  pub live : now < s.expires_at
  pub digest : s.guest_digest ≡ some (env.digest (bearer_token request))
  pub room : s.request_count < s.max_requests
  pub is_json : map to_lower (take 16 (or_empty request.content_type)) ≡ codes "application/json"
  pub announced : IsShort request.content_length
  pub short : length request.body ≤ 2097152
  pub parses : env.parse_json request.body ≡ some parsed.value
  pub valid : IsRequestFor (key_of kind) parsed.value s.model
  pub bytes : parsed.bytes ≡ request.body
  pub bearer : parsed.bearer ≡ bearer_token request

is_truthy-IsGiven : (o : Option Text) → (is_truthy o ≡ true) ↔ IsGiven o
unfolding list_beq
is_truthy-IsGiven none = (λ h. absurd (cc), λ g. absurd (let e = g.2 in cc))
is_truthy-IsGiven (some []) = (λ h. absurd (cc), λ g. absurd (let e = g.2 in cc))
is_truthy-IsGiven (some (c ∷ t)) = (λ h. (c, t, refl), λ g. refl)

is_within-IsShort : (o : Option ℕ) → (is_within o ≡ true) ↔ IsShort o
is_within-IsShort none = (λ h. tt, λ h. refl)
is_within-IsShort (some n) = (λ h. ground (arith, h), λ h. ground (arith, h))

serves_iff : (kind : Kind) (path : ApiPath) → (serves kind path ≡ true) ↔ (path ≡ path_of kind)
serves_iff completion_kind chat_completions = (λ h. refl, λ h. refl)
serves_iff completion_kind responses = (λ h. absurd (cc), λ h. absurd (cc))
serves_iff responses_kind chat_completions = (λ h. absurd (cc), λ h. absurd (cc))
serves_iff responses_kind responses = (λ h. refl, λ h. refl)

has_prefix_lower_iff :
    (prefix value : Text)
    → (has_prefix_lower prefix value ≡ true) ↔ (map to_lower (take (length prefix) value) ≡ prefix)
unfolding has_prefix_lower
has_prefix_lower_iff [] value = (λ h. refl, λ h. refl)
has_prefix_lower_iff (p ∷ prefix) [] = (λ h. absurd (cc), λ h. absurd (cc))
has_prefix_lower_iff (p ∷ prefix) (v ∷ value) =
    let head = nat_eq.beq_iff p (to_lower v) in
    let rest = has_prefix_lower_iff prefix value in
    (
      λ h.
          let first : p ≡ to_lower v = head.0 (ground (arith, h)) in
          let others = rest.0 (ground (arith, h)) in cc,
      λ h.
          let first : p ≡ to_lower v = cc in
          let others : map to_lower (take (length prefix) value) ≡ prefix = cc in
          rw (head.1 first) (rest.1 others),
    )

is_ready_iff : (state : SessionState) → (is_ready state ≡ true) ↔ (state ≡ ready)
is_ready_iff pending = (λ h. absurd (cc), λ h. absurd (cc))
is_ready_iff ready = (λ h. refl, λ h. refl)

has_credential_iff : (s : Session) → (has_credential s ≡ true) ↔ HasCredential s.auth_type s
unfolding has_credential
has_credential_iff s = by_auth s.auth_type
  where
    by_auth : (auth : AuthType) → (has_credential_of auth s ≡ true) ↔ HasCredential auth s
    by_auth api_key_auth = is_truthy-IsGiven s.api_key
    by_auth openai_oauth =
        let access = is_truthy-IsGiven s.access_token in
        let refresh = is_truthy-IsGiven s.refresh_token in
        (
          λ h. (access.0 (ground (arith, h)), refresh.0 (ground (arith, h))),
          λ g. rw (access.1 g.0) (refresh.1 g.1),
        )

module _ (env : Env) (kind : Kind) (request : Request) (now : ℕ) (store : Store) (parsed : Parsed)
    (s : Session) (units : (t : Text) → AreUnits (env.digest t))
    (stored : (d : Text) → s.guest_digest ≡ some d → AreUnits d) where
  abbrev token : Text
  token = env.digest (bearer_token request)

  known_iff : (digest_equal token s.guest_digest ≡ true) ↔ (s.guest_digest ≡ some token)
  known_iff = digest_equal_iff token s.guest_digest (units (bearer_token request)) stored

  IsAdmitted-IsEntitled :
      IsAdmitted env kind request now store parsed s
      → IsEntitled env kind request now store parsed s
  unfolding is_post is_usable
  IsAdmitted-IsEntitled a =
      let usable = a.usable in
      record {
        method = (string_eq.beq_iff request.method "POST").0 a.post;
        current = a.current;
        kept = ground (arith, usable);
        state = (is_ready_iff s.state).0 (ground (arith, usable));
        credential = (has_credential_iff s).0 (ground (arith, usable));
        path = (serves_iff kind s.api_path).0 a.served;
        live = a.live;
        digest = known_iff.0 a.known;
        room = a.room;
        is_json = (has_prefix_lower_iff (codes "application/json") _).0 a.readable.is_json;
        announced = (is_within-IsShort request.content_length).0 a.readable.announced;
        short = a.readable.short;
        parses = a.readable.parses;
        valid = (is_valid_request_iff kind parsed.value s.model).0 a.valid;
        bytes = a.bytes;
        bearer = a.bearer;
      }

  all_three : {a b c : Bool} → a ≡ true → b ≡ true → c ≡ true → (a && (b && c)) ≡ true
  all_three p q r = rw p (rw q r)

  IsEntitled-IsAdmitted :
      IsEntitled env kind request now store parsed s
      → IsAdmitted env kind request now store parsed s
  unfolding is_post is_usable
  IsEntitled-IsAdmitted e = record {
    post = (string_eq.beq_iff request.method "POST").1 e.method;
    current = e.current;
    usable =
        all_three (ap not e.kept) ((is_ready_iff s.state).1 e.state)
          ((has_credential_iff s).1 e.credential);
    served = (serves_iff kind s.api_path).1 e.path;
    live = e.live;
    known = known_iff.1 e.digest;
    room = e.room;
    readable = record {
      is_json = (has_prefix_lower_iff (codes "application/json") _).1 e.is_json;
      announced = (is_within-IsShort request.content_length).1 e.announced;
      short = e.short;
      parses = e.parses;
    };
    valid = (is_valid_request_iff kind parsed.value s.model).1 e.valid;
    bytes = e.bytes;
    bearer = e.bearer;
  }

-- A model request is let through exactly if it is a POST request, a session is stored that is
-- ready, not revoked, has the credential of its kind, serves the request's path, has not expired
-- and is not used up, the digest of its bearer token is the session's, and its body is, by its
-- content type and its parse, JSON of at most 2 MiB, an object with the session's model and with
-- messages, or input; it goes on with that body and token. The digests, the stored one too, are
-- texts of 16-bit code units.
pub check_request_iff :
    (env : Env) (kind : Kind) (request : Request) (now : ℕ) (store : Store) (parsed : Parsed)
    → ((t : Text) → AreUnits (env.digest t))
    → ((s : Session) (d : Text) → store.session ≡ some s → s.guest_digest ≡ some d → AreUnits d)
    → (check_request env kind request now store ≡ go parsed)
      ↔ ((s : Session) × IsEntitled env kind request now store parsed s)
check_request_iff env kind request now store parsed units stored = (
  λ h.
      let (s, a) = check_request-IsAdmitted env kind request now store parsed h in
      (
        s,
        IsAdmitted-IsEntitled env kind request now store parsed s units
            (λ d e. stored s d a.current e) a,
      ),
  λ found.
      let (s, e) = found in
      IsAdmitted-check_request env kind request now store parsed s (
        IsEntitled-IsAdmitted env kind request now store parsed s units
          (λ d g. stored s d e.current g) e),
)
