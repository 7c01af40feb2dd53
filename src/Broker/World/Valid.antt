-- ===== src/Broker/World/Valid.antt =====
-- worker/byok-broker.mjs: what `validateCompletion`, `validateResponses` and `fixedLengthEqual` are
-- to establish.
use clawsembly_kernel.Prelude.{
  ◌≡◌, refl, sym, ap, true, ◌↔◌, String, Option, none, some, arith, codes, codes_eq, nat_eq, ◌&&◌,
}
use clawsembly_kernel.Js.{
  Js, undefined, null, bool, num, other_num, str, arr_with, obj, is_record, Elements, nil, cons,
  Fields, property,
}
use clawsembly_kernel.JsText.{Text}
use clawsembly_kernel.Bridge.Compare.{AreUnits, fixed_length_equal_iff}
use clawsembly_kernel.Broker.{
  digest_equal, is_model_of, is_nonempty_array, validate_completion, validate_responses,
}
use clawsembly_kernel.Broker.Forward.{Kind, completion_kind, responses_kind, is_valid_request}

pub IsText : Js → Text → Type 0
IsText v text = (s : String) × (v ≡ str s) × (codes s ≡ text)

pub IsNonempty : Js → Type 0
IsNonempty v =
    (first : Js) × (rest : Elements) × (named : Fields) × (v ≡ arr_with (cons first rest) named)

-- An object with this model and with an array that is not empty under this key.
pub record IsRequestFor (k : String) (value : Js) (model : Text) : Type 0 where
  pub fields : Fields
  pub is_object : value ≡ obj fields
  pub same_model : IsText (property value "model") model
  pub has_parts : IsNonempty (property value k)

abbrev pub key_of : Kind → String
key_of completion_kind = "messages"
key_of responses_kind = "input"

is_model_of-IsText : (model : Text) (v : Js) → (is_model_of model v ≡ true) ↔ IsText v model
unfolding IsText
is_model_of-IsText model (str s) = (
  λ h. (s, refl, (codes_eq.beq_iff (codes s) model).0 h),
  λ t.
      let (s2, e, h) = t in
      let same : codes s ≡ model = cc in (codes_eq.beq_iff (codes s) model).1 same,
)
is_model_of-IsText model undefined = (λ h. absurd (cc), λ t. absurd (let e = t.1 in cc))
is_model_of-IsText model null = (λ h. absurd (cc), λ t. absurd (let e = t.1 in cc))
is_model_of-IsText model (bool b) = (λ h. absurd (cc), λ t. absurd (let e = t.1 in cc))
is_model_of-IsText model (num n) = (λ h. absurd (cc), λ t. absurd (let e = t.1 in cc))
is_model_of-IsText model (other_num n) = (λ h. absurd (cc), λ t. absurd (let e = t.1 in cc))
is_model_of-IsText model (arr_with vs ns) = (λ h. absurd (cc), λ t. absurd (let e = t.1 in cc))
is_model_of-IsText model (obj fs) = (λ h. absurd (cc), λ t. absurd (let e = t.1 in cc))

is_nonempty_array-IsNonempty : (v : Js) → (is_nonempty_array v ≡ true) ↔ IsNonempty v
unfolding is_nonempty_array IsNonempty
is_nonempty_array-IsNonempty (arr_with (cons v vs) ns) =
    (λ h. (v, vs, ns, refl), λ t. ground (arith))
is_nonempty_array-IsNonempty (arr_with nil ns) = (λ h. absurd (cc), λ t. absurd (let e = t.3 in cc))
is_nonempty_array-IsNonempty undefined = (λ h. absurd (cc), λ t. absurd (let e = t.3 in cc))
is_nonempty_array-IsNonempty null = (λ h. absurd (cc), λ t. absurd (let e = t.3 in cc))
is_nonempty_array-IsNonempty (bool b) = (λ h. absurd (cc), λ t. absurd (let e = t.3 in cc))
is_nonempty_array-IsNonempty (num n) = (λ h. absurd (cc), λ t. absurd (let e = t.3 in cc))
is_nonempty_array-IsNonempty (other_num n) = (λ h. absurd (cc), λ t. absurd (let e = t.3 in cc))
is_nonempty_array-IsNonempty (str s) = (λ h. absurd (cc), λ t. absurd (let e = t.3 in cc))
is_nonempty_array-IsNonempty (obj fs) = (λ h. absurd (cc), λ t. absurd (let e = t.3 in cc))

is_request-IsRequestFor :
    (k : String) (value : Js) (model : Text)
    → ((is_record value
          && (is_model_of model (property value "model") && is_nonempty_array (property value k)))
        ≡ true)
      ↔ IsRequestFor k value model
is_request-IsRequestFor k value model = (forth value, back)
  where
    forth :
        (v : Js)
        → (is_record v
            && (is_model_of model (property v "model") && is_nonempty_array (property v k)))
          ≡ true
        → IsRequestFor k v model
    forth (obj fs) h = record {
      fields = fs;
      is_object = refl;
      same_model = (is_model_of-IsText model _).0 (ground (arith, h));
      has_parts = (is_nonempty_array-IsNonempty _).0 (ground (arith, h));
    }
    forth undefined h = absurd (cc)
    forth null h = absurd (cc)
    forth (bool b) h = absurd (cc)
    forth (num n) h = absurd (cc)
    forth (other_num n) h = absurd (cc)
    forth (str s) h = absurd (cc)
    forth (arr_with vs ns) h = absurd (cc)

    back :
        IsRequestFor k value model
        → (is_record value
            && (is_model_of model (property value "model") && is_nonempty_array (property value k)))
          ≡ true
    back r =
        let is_object : is_record value ≡ true = ap is_record r.is_object in
        let same_model = (is_model_of-IsText model _).1 r.same_model in
        let has_parts = (is_nonempty_array-IsNonempty _).1 r.has_parts in
        rw is_object (rw same_model has_parts)

-- The validators accept exactly the objects with the model and with parts under their key.
pub is_valid_request_iff :
    (kind : Kind) (value : Js) (model : Text)
    → (is_valid_request kind value model ≡ true) ↔ IsRequestFor (key_of kind) value model
unfolding is_valid_request validate_completion validate_responses
is_valid_request_iff completion_kind value model = is_request-IsRequestFor "messages" value model
is_valid_request_iff responses_kind value model = is_request-IsRequestFor "input" value model

-- The digests are compared as equality does.
pub digest_equal_iff :
    (left : Text) (o : Option Text)
    → AreUnits left
    → ((right : Text) → o ≡ some right → AreUnits right)
    → (digest_equal left o ≡ true) ↔ (o ≡ some left)
unfolding digest_equal
digest_equal_iff left none h k = (λ e. absurd (cc), λ e. absurd (cc))
digest_equal_iff left (some right) h k =
    let both = fixed_length_equal_iff left right h (k right refl) in
    (λ e. ap some (sym (both.0 e)), λ e. both.1 (by_some e))
  where
    by_some : ◌≡◌ {A = Option Text} (some right) (some left) → left ≡ right
    by_some e = cc
