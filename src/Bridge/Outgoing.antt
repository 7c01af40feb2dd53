-- ===== src/Bridge/Outgoing.antt =====
-- src/byok-http-bridge.ts: the requests that leave for the provider.
use clawsembly_kernel.Prelude.{◌≡◌, refl, String, List, [], ◌∷◌, ◌++◌, All, Bool-cases, inl, inr}
use clawsembly_kernel.JsText.{Text}
use clawsembly_kernel.Byok.{Capability}
use clawsembly_kernel.Bridge.{
  Attempt, done, thrown, BridgeRequest, BridgeResponse, DirectoryEntry, Host, Effect, fetched,
  wrote, removed, Bridge, bearer, upstream_url, request_path, response_path, id_of_name,
  is_request_entry, and_then, admit, respond, finish, refuse, answer, forward, decide,
  process_request, process_all,
}
use clawsembly_kernel.Bridge.Safety.{IsPermitted, admit-IsPermitted}

module _ (h : Host) (capability : Capability) where
  -- A request to the provider is that of the capability, with its key and a permitted body.
  pub record IsOutgoing (url key : Text) (body : String) : Type 0 where
    pub name : Text
    pub request : BridgeRequest
    pub permitted : IsPermitted h capability name request
    pub to_provider : url ≡ upstream_url capability
    pub with_key : key ≡ bearer capability
    pub same_body : body ≡ request.body

  abbrev pub IsAllowed : Effect → Type 0
  IsAllowed (fetched url key body) = IsOutgoing url key body
  IsAllowed (wrote path response) = Unit
  IsAllowed (removed path) = Unit

  abbrev pub AreAllowed : Bridge → Type 0
  AreAllowed s = All IsAllowed s.effects

  AreAllowed-snoc :
      (effects : List Effect) (e : Effect)
      → All IsAllowed effects
      → IsAllowed e
      → All IsAllowed (effects ++ e ∷ [])
  AreAllowed-snoc [] e v a = (a, tt)
  AreAllowed-snoc (x ∷ effects) e (b, v) a = (b, AreAllowed-snoc effects e v a)

  finish-AreAllowed :
      (name : Text) (response : BridgeResponse) (s : Bridge)
      → AreAllowed s
      → AreAllowed (finish h capability name response s).0
  unfolding finish
  finish-AreAllowed name response s v =
      let path = response_path (id_of_name name) in
      let answered = AreAllowed-snoc s.effects (wrote path response) v tt in
      elim (Bool-cases (h.write_throws path)) [
        | inl e ↦ rw e v
        | inr e ↦ elim (Bool-cases (h.remove_throws (request_path name))) [
          | inl f ↦ rw (e, f) answered
          | inr f ↦ rw (e, f) (AreAllowed-snoc _ (removed (request_path name)) answered tt)
        ]
      ]

  answer-AreAllowed :
      (name : Text) (o : Attempt BridgeResponse) (s : Bridge)
      → AreAllowed s
      → AreAllowed (answer h capability name o s).0
  unfolding answer
  answer-AreAllowed name (done response) s v = finish-AreAllowed name response _ v
  answer-AreAllowed name (thrown message) s v = finish-AreAllowed name _ _ v

  decide-AreAllowed :
      (name : Text) (o : Attempt BridgeRequest) (s : Bridge)
      → admit h capability name ≡ o
      → AreAllowed s
      → AreAllowed (decide h capability name o s).0
  unfolding decide forward refuse
  decide-AreAllowed name (thrown code) s e v = finish-AreAllowed name _ _ v
  decide-AreAllowed name (done request) s e v =
      answer-AreAllowed name (respond h capability request) _ (
        AreAllowed-snoc s.effects
          (fetched (upstream_url capability) (bearer capability) request.body) v
          (record {
            name = name;
            request = request;
            permitted = admit-IsPermitted h capability name request e;
            to_provider = refl;
            with_key = refl;
            same_body = refl;
          }))

  process_request-AreAllowed :
      (entry : DirectoryEntry) (s : Bridge)
      → AreAllowed s
      → AreAllowed (process_request h capability entry s).0
  unfolding process_request
  process_request-AreAllowed entry s v = elim (Bool-cases (is_request_entry entry)) [
    | inl e ↦ rw e (decide-AreAllowed entry.name (admit h capability entry.name) _ refl v)
    | inr e ↦ rw e v
  ]

  and_then-AreAllowed :
      (k : Bridge → Bridge) (r : Bridge × Attempt (Unit {0}))
      → ((t : Bridge) → AreAllowed t → AreAllowed (k t))
      → AreAllowed r.0
      → AreAllowed (and_then k r)
  and_then-AreAllowed k (t, done _) f w = f t w
  and_then-AreAllowed k (t, thrown _) f w = w

  -- A round over any entries sends to the provider only the bodies of permitted requests, to the
  -- capability's URL and with its key, if all that was sent before was such.
  pub process_all-AreAllowed :
      (entries : List DirectoryEntry) (s : Bridge)
      → AreAllowed s
      → AreAllowed (process_all h capability entries s)
  unfolding process_all
  process_all-AreAllowed [] s v = v
  process_all-AreAllowed (entry ∷ entries) s v =
      and_then-AreAllowed (process_all h capability entries) (process_request h capability entry s)
        (λ t w. process_all-AreAllowed entries t w) (process_request-AreAllowed entry s v)
