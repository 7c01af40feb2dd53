-- ===== src/Bridge/Safety.antt =====
-- src/byok-http-bridge.ts: what the bridge counts, and what it admits.
use clawsembly_kernel.Prelude.{
  ℕ, suc, ◌+◌, ◌≤◌, ◌≡◌, refl, sym, subst, ◌∙◌, String, Bool, true, false, ◌&&◌, List, [], ◌∷◌,
  ◌++◌, arith, leb, codes, All-append, ◌<◌, string_eq, codes_eq, ◌==◌, Bool-cases, inl, inr,
}
use clawsembly_kernel.Js.{
  Js, undefined, null, bool, num, other_num, str, arr_with, obj, Elements, Fields, property,
  is_text, is_num, is_array,
}
use clawsembly_kernel.Js.Laws.{is_text_iff}
use clawsembly_kernel.JsText.{Text}
use clawsembly_kernel.Byok.{ApiPath, chat_completions, responses, api_path_text, Capability}
use clawsembly_kernel.Bridge.Compare.{fixed_length_equal_iff, codes-AreUnits}
use clawsembly_kernel.Bridge.{
  Attempt, done, thrown, ◌>>=◌, guard, max_body_bytes, fixed_length_equal, BridgeRequest,
  BridgeResponse, DirectoryEntry, Host, fetched, Bridge, bearer, upstream_url, is_id_value,
  required_string, is_valid_payload, request_path, id_of_name, is_request_entry, and_then, readable,
  parse_request, admit, respond, finish, refuse, answer, forward, decide, process_request,
  process_all,
}

-- Every request that was seen either failed or was forwarded.
abbrev pub IsBalanced : Bridge → Type 0
IsBalanced s = s.requests_seen ≡ s.failed + s.forwarded

module _ (h : Host) (capability : Capability) where
  finish-counts :
      (name : Text) (response : BridgeResponse) (s : Bridge)
      → IsBalanced s
      → IsBalanced (finish h capability name response s).0
  unfolding finish
  finish-counts name response s v = ground arith

  decide-counts :
      (name : Text) (o : Attempt BridgeRequest) (s : Bridge)
      → IsBalanced s
      → IsBalanced (decide h capability name o (record s { requests_seen = suc s.requests_seen })).0
  unfolding decide forward refuse
  decide-counts name (thrown code) s v = finish-counts name _ _ (omega (arith, v))
  decide-counts name (done request) s v = by_response (respond h capability request)
    where
      by_response :
          (o : Attempt BridgeResponse)
          → IsBalanced
              (answer h capability name o (record s {
                requests_seen = suc s.requests_seen;
                effects =
                    s.effects
                    ++ fetched (upstream_url capability) (bearer capability) request.body ∷ [];
              })).0
      by_response (done response) =
          unfold answer in finish-counts name response _ (omega (arith, v))
      by_response (thrown message) = unfold answer in finish-counts name _ _ (omega (arith, v))

  process_request-counts :
      (entry : DirectoryEntry) (s : Bridge)
      → IsBalanced s
      → IsBalanced (process_request h capability entry s).0
  unfolding process_request
  process_request-counts entry s v = elim (Bool-cases (is_request_entry entry)) [
    | inl e ↦ rw e (decide-counts entry.name (admit h capability entry.name) s v)
    | inr e ↦ rw e v
  ]

  and_then-IsBalanced :
      (k : Bridge → Bridge) (r : Bridge × Attempt (Unit {0}))
      → ((t : Bridge) → IsBalanced t → IsBalanced (k t))
      → IsBalanced r.0
      → IsBalanced (and_then k r)
  and_then-IsBalanced k (t, done _) f w = f t w
  and_then-IsBalanced k (t, thrown _) f w = w

  -- Every request that the bridge has seen either failed or was forwarded, once each: a round over
  -- any entries keeps that, whatever is read, fetched or thrown.
  pub process_all-IsBalanced :
      (entries : List DirectoryEntry) (s : Bridge)
      → IsBalanced s
      → IsBalanced (process_all h capability entries s)
  unfolding process_all
  process_all-IsBalanced [] s v = v
  process_all-IsBalanced (entry ∷ entries) s v =
      and_then-IsBalanced (process_all h capability entries) (process_request h capability entry s)
        (λ t w. process_all-IsBalanced entries t w) (process_request-counts entry s v)

done_of_bind {ℓ κ} :
    {B : Type κ} {A : Type ℓ} {b : B} (first : Attempt A) (next : A → Attempt B)
    (result : (first >>= next) ≡ done b)
    → (value : A) × (first ≡ done value) × (next value ≡ done b)
done_of_bind (thrown reason) next result = cc
done_of_bind (done value) next result = (value, refl, result)

required_string-eq : (v : Js) (s : String) → required_string v ≡ done s → v ≡ str s
unfolding required_string
required_string-eq (str t) s e = cc
required_string-eq undefined s e = cc
required_string-eq null s e = cc
required_string-eq (bool b) s e = cc
required_string-eq (num n) s e = cc
required_string-eq (other_num n) s e = cc
required_string-eq (arr_with vs fs) s e = cc
required_string-eq (obj fs) s e = cc

done-inj : (a b : BridgeRequest) → ◌≡◌ {A = Attempt BridgeRequest} (done a) (done b) → a ≡ b
done-inj a b h = cc

both : (a b : Bool) → (a && b) ≡ true → (a ≡ true) × (b ≡ true)
both true b h = (refl, h)
both false b h = cc

le_of_test : (m n : ℕ) → leb m n ≡ true → m ≤ n
le_of_test m n h = ground arith

unguard : (b : Bool) (e : String) → guard b e ≡ done tt → b ≡ true
unguard true e h = refl
unguard false e h = cc

abbrev pub payload_key : ApiPath → String
payload_key chat_completions = "messages"
payload_key responses = "input"

array_items :
    (v : Js)
    → is_array v ≡ true
    → (items : Elements) × (named : Fields) × (v ≡ arr_with items named)
array_items (arr_with items named) h = (items, named, refl)
array_items undefined h = absurd (cc)
array_items null h = absurd (cc)
array_items (bool b) h = absurd (cc)
array_items (num n) h = absurd (cc)
array_items (other_num n) h = absurd (cc)
array_items (str s) h = absurd (cc)
array_items (obj fs) h = absurd (cc)

payload_items :
    (path : ApiPath) (parsed : Js)
    → is_valid_payload path parsed ≡ true
    → (items : Elements) × (named : Fields) × (property parsed (payload_key path)
        ≡ arr_with items named)
unfolding is_valid_payload
payload_items chat_completions parsed h = array_items (property parsed "messages") h
payload_items responses parsed h = array_items (property parsed "input") h

-- A request inside the capability, with its key.
pub record IsPermitted (h : Host) (capability : Capability) (name : Text) (request : BridgeRequest)
    : Type 0 where
  pub value : Js
  pub read : h.read_request (request_path name) ≡ done value
  pub path : property value "path" ≡ str (api_path_text capability.api_path)
  pub method : property value "method" ≡ str "POST"
  pub body : property value "body" ≡ str request.body
  pub authorization : property value "authorization" ≡ str request.authorization
  pub named : codes request.id ≡ id_of_name name
  pub sized : h.encoded_length request.body ≤ max_body_bytes
  pub keyed : codes request.authorization ≡ codes "Bearer " ++ codes capability.api_key
  pub parsed : Js
  pub parses : h.parse_body request.body ≡ done parsed
  pub model : property parsed "model" ≡ str capability.model
  pub payload :
      (items : Elements) × (named : Fields) × (property parsed (payload_key capability.api_path)
        ≡ arr_with items named)

same_key :
    (h : Host) (capability : Capability) (authorization : String)
    → fixed_length_equal (codes authorization) (bearer capability) ≡ true
    → codes authorization ≡ codes "Bearer " ++ codes capability.api_key
same_key h capability authorization e =
    (fixed_length_equal_iff (codes authorization) (bearer capability) (codes-AreUnits authorization)
        (All-append (λ u. u < 65536) (codes "Bearer ") (codes capability.api_key)
          (codes-AreUnits "Bearer ") (codes-AreUnits capability.api_key))).0
      e

-- What the bridge admits is permitted: it was read under the name of its id, posts to the
-- capability's path, asks for the capability's model with a payload of the right shape and a body
-- of at most 2 MiB, and carries the capability's key.
pub admit-IsPermitted :
    (h : Host) (capability : Capability) (name : Text) (request : BridgeRequest)
    → admit h capability name ≡ done request
    → IsPermitted h capability name request
unfolding admit parse_request
admit-IsPermitted h capability name request e =
    let (value, q0, e0) = done_of_bind (h.read_request (request_path name)) _ e in
    let (given, q1, e1) = done_of_bind (parse_request h capability value) _ e0 in
    let (_, q2, e2) =
      done_of_bind (guard (codes given.id == id_of_name name) "request_id_mismatch") _ e1 in
    let (_, q3, e3) =
      done_of_bind
        (guard (fixed_length_equal (codes given.authorization) (bearer capability)) "unauthorized")
        _ e2 in
    let (_, p0, d0) = done_of_bind (readable h value) _ q1 in
    let (_, p1, d1) =
      done_of_bind
        (guard
          (is_num 1 (property value "schemaVersion")
            && (is_text "POST" (property value "method")
                && is_text (api_path_text capability.api_path) (property value "path")))
          "invalid_bridge_request")
        _ d0 in
    let (_, p2, d2) =
      done_of_bind (guard (is_id_value (property value "id")) "invalid_bridge_request") _ d1 in
    let (id, p3, d3) = done_of_bind (required_string (property value "id")) _ d2 in
    let (auth, p4, d4) = done_of_bind (required_string (property value "authorization")) _ d3 in
    let (body, p5, d5) = done_of_bind (required_string (property value "body")) _ d4 in
    let (_, p6, d6) =
      done_of_bind (guard (leb (h.encoded_length body) max_body_bytes) "invalid_bridge_request") _
        d5 in
    let (parsed, p7, d7) = done_of_bind (h.parse_body body) _ d6 in
    let (_, p8, d8) = done_of_bind (readable h parsed) _ d7 in
    let (_, p9, d9) =
      done_of_bind
        (guard
          (is_text capability.model (property parsed "model")
            && is_valid_payload capability.api_path parsed)
          "request_outside_capability")
        _ d8 in
    let whole : BridgeRequest = record { authorization = auth; body = body; id = id } in
    let same : whole ≡ given = done-inj whole given d9 in
    let same' : given ≡ request = done-inj given request e3 in
    let form = both _ _ (unguard _ "invalid_bridge_request" p1) in
    let target = both _ _ form.1 in
    let inside = both _ _ (unguard _ "request_outside_capability" p9) in
    let post = is_text_iff "POST" (property value "method") in
    let path = is_text_iff (api_path_text capability.api_path) (property value "path") in
    let model = is_text_iff capability.model (property parsed "model") in
    subst (IsPermitted h capability name) (same ∙ same') (record {
      value = value;
      read = q0;
      path = path.0 target.1;
      method = post.0 target.0;
      body = required_string-eq _ body p5;
      authorization = required_string-eq _ auth p4;
      named = (codes_eq.beq_iff (codes id) (id_of_name name)).0 (
          unguard _ _ (
            subst (λ r. guard (codes r.id == id_of_name name) "request_id_mismatch" ≡ done tt)
              (sym same) q2));
      sized = le_of_test _ _ (unguard _ "invalid_bridge_request" p6);
      keyed = same_key h capability auth (
          unguard _ _ (
            subst
              (λ r.
                guard (fixed_length_equal (codes r.authorization) (bearer capability))
                  "unauthorized"
                ≡ done tt)
              (sym same) q3));
      parsed = parsed;
      parses = p7;
      model = model.0 inside.0;
      payload = payload_items capability.api_path parsed (inside.1);
    })
