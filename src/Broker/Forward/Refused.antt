-- ===== src/Broker/Forward/Refused.antt =====
-- worker/byok-broker.mjs: the keys that `sanitizeCodexResponses` takes away, and those it leaves.
use clawsembly_kernel.Prelude.{
  ◌≡◌, ◌≢◌, refl, ap, ◌∙◌, String, Bool, true, false, not, inl, inr, none, some, List, [], ◌∷◌,
  arith, All, all, any, codes, ℕ, Bool-cases, ◌==◌, string_eq, list_beq, ◌&&◌,
}
use clawsembly_kernel.Js.{
  Js, undefined, null, bool, num, other_num, str, arr_with, obj, Fields, end, field, property,
  put_field, field_of, or_undefined,
}
use clawsembly_kernel.AgentTurn.{trim, trim_start, is_space}
use clawsembly_kernel.Broker.Forward.Sanitize.{
  delete_field, delete_fields, refused_keys, default_instructions, has_words, with_instructions,
  put_text, without_format, sanitize_codex_responses,
}

field_of-delete_field-same : (k : String) (fs : Fields) → field_of k (delete_field k fs) ≡ none
unfolding field_of delete_field
field_of-delete_field-same k end = refl
field_of-delete_field-same k (field j v fs) = elim (Bool-cases (j == k)) [
  | inl h ↦ rw h (field_of-delete_field-same k fs)
  | inr h ↦ rw h (rw h (field_of-delete_field-same k fs))
]

field_of-delete_field :
    (j k : String) (fs : Fields) → j ≢ k → field_of k (delete_field j fs) ≡ field_of k fs
unfolding field_of delete_field
field_of-delete_field j k end h = refl
field_of-delete_field j k (field i v fs) h =
    ground (arith, string_eq.beq_iff i j, string_eq.beq_iff i k, field_of-delete_field j k fs h)

field_of-put_field :
    (j k : String) (v : Js) (fs : Fields) → j ≢ k → field_of k (put_field j v fs) ≡ field_of k fs
unfolding field_of put_field
field_of-put_field j k v end h = ground (arith, string_eq.beq_iff j k)
field_of-put_field j k v (field i w fs) h =
    ground (arith, string_eq.beq_iff i j, string_eq.beq_iff i k, field_of-put_field j k v fs h)

field_of-put_field-same :
    (k : String) (v : Js) (fs : Fields) → field_of k (put_field k v fs) ≡ some v
unfolding field_of put_field
field_of-put_field-same k v end = ground (arith, string_eq.beq_iff k k)
field_of-put_field-same k v (field i w fs) =
    ground (arith, string_eq.beq_iff i k, string_eq.beq_iff k k, field_of-put_field-same k v fs)

-- A key that is not there is not there after any deletion.
delete_field-none :
    (j k : String) (fs : Fields) → field_of k fs ≡ none → field_of k (delete_field j fs) ≡ none
delete_field-none j k fs h = elim (Bool-cases (j == k)) [
  | inl e ↦
      let same : j ≡ k = (string_eq.beq_iff j k).0 e in rw same (field_of-delete_field-same k fs)
  | inr e ↦
      let other : j ≢ k = λ same. let t = (string_eq.beq_iff j k).1 same in cc in
      field_of-delete_field j k fs other ∙ h
]

delete_fields-none :
    (keys : List String) (k : String) (fs : Fields)
    → field_of k fs ≡ none
    → field_of k (delete_fields keys fs) ≡ none
unfolding delete_fields
delete_fields-none [] k fs h = h
delete_fields-none (j ∷ keys) k fs h =
    delete_fields-none keys k (delete_field j fs) (delete_field-none j k fs h)

delete_fields-gone :
    (keys : List String) (fs : Fields) → All (λ k. field_of k (delete_fields keys fs) ≡ none) keys
unfolding delete_fields
delete_fields-gone [] fs = tt
delete_fields-gone (j ∷ keys) fs = (
  delete_fields-none keys j (delete_field j fs) (field_of-delete_field-same j fs),
  delete_fields-gone keys (delete_field j fs),
)

delete_fields-other :
    (keys : List String) (k : String) (fs : Fields)
    → All (λ j. j ≢ k) keys
    → field_of k (delete_fields keys fs) ≡ field_of k fs
unfolding delete_fields
delete_fields-other [] k fs h = refl
delete_fields-other (j ∷ keys) k fs (h, rest) =
    delete_fields-other keys k (delete_field j fs) rest ∙ field_of-delete_field j k fs h

with_instructions-other :
    (k : String) (fs : Fields)
    → "instructions" ≢ k
    → field_of k (with_instructions fs) ≡ field_of k fs
unfolding with_instructions
with_instructions-other k fs h = elim (Bool-cases (has_words (property (obj fs) "instructions"))) [
  | inl e ↦ rw e refl
  | inr e ↦ rw e (field_of-put_field "instructions" k default_instructions fs h)
]

without_format-other :
    (v : Js) (k : String) (fs : Fields)
    → "text" ≢ k
    → field_of k (without_format v fs) ≡ field_of k fs
unfolding without_format
without_format-other (obj text) k fs h = by_text (delete_field "format" text)
  where
    by_text : (rest : Fields) → field_of k (put_text rest fs) ≡ field_of k fs
    by_text end = field_of-delete_field "text" k fs h
    by_text (field i w rest) = field_of-put_field "text" k (obj (field i w rest)) fs h
without_format-other undefined k fs h = refl
without_format-other null k fs h = refl
without_format-other (bool b) k fs h = refl
without_format-other (num n) k fs h = refl
without_format-other (other_num n) k fs h = refl
without_format-other (str s) k fs h = refl
without_format-other (arr_with vs ns) k fs h = refl

default-has_words : has_words default_instructions ≡ true
unfolding has_words trim trim_start is_space list_beq
default-has_words = refl

with_instructions-has_words :
    (fs : Fields) → has_words (property (obj (with_instructions fs)) "instructions") ≡ true
unfolding with_instructions property
with_instructions-has_words fs = elim (Bool-cases (has_words (property (obj fs) "instructions"))) [
  | inl e ↦ rw e e
  | inr e ↦
      rw e (rw (field_of-put_field-same "instructions" default_instructions fs) default-has_words)
]

sanitized-other :
    (fs : Fields) (k : String)
    → "instructions" ≢ k
    → "text" ≢ k
    → property (sanitize_codex_responses (obj fs)) k
      ≡ property (obj (delete_fields refused_keys fs)) k
unfolding sanitize_codex_responses property
sanitized-other fs k h i =
    let instructed = with_instructions (delete_fields refused_keys fs) in
    ap or_undefined (
      without_format-other (property (obj instructed) "text") k instructed i
      ∙ with_instructions-other k (delete_fields refused_keys fs) h)

ne_of_test : (j k : String) → (j == k) ≡ false → j ≢ k
ne_of_test j k h = ground (arith, string_eq.beq_iff j k)

is_left : String → Bool
is_left k = not ("instructions" == k) && not ("text" == k)

refused :
    (keys : List String) (fs : Fields)
    → all is_left keys ≡ true
    → All (λ k. field_of k (delete_fields refused_keys fs) ≡ none) keys
    → All (λ k. property (sanitize_codex_responses (obj fs)) k ≡ undefined) keys
unfolding all is_left property
refused [] fs h gone = tt
refused (k ∷ keys) fs h (none_left, gone) =
    let i = ne_of_test "instructions" k (ground (arith, h)) in
    let t = ne_of_test "text" k (ground (arith, h)) in
    (sanitized-other fs k i t ∙ ap or_undefined none_left, refused keys fs (ground (arith, h)) gone)

has_instructions :
    (fs : Fields) → has_words (property (sanitize_codex_responses (obj fs)) "instructions") ≡ true
unfolding sanitize_codex_responses property
has_instructions fs =
    let instructed = with_instructions (delete_fields refused_keys fs) in
    let same = ap or_undefined (
      without_format-other (property (obj instructed) "text") "instructions" instructed
        (ne_of_test "text" "instructions" refl)) in
    ap has_words same ∙ with_instructions-has_words (delete_fields refused_keys fs)

trim_start-none : (cs : List ℕ) → any (λ c. not (is_space c)) cs ≡ false → trim_start cs ≡ []
unfolding trim_start any
trim_start-none [] h = refl
trim_start-none (c ∷ cs) h = elim (Bool-cases (is_space c)) [
  | inl e ↦ rw e (trim_start-none cs (ground (arith, h, e)))
  | inr e ↦ absurd (ground (arith, h, e))
]

-- A text that is sent as instructions: one with a character that is not white space.
pub AreInstructions : Js → Type 0
AreInstructions v = (s : String) × (v ≡ str s) × (any (λ c. not (is_space c)) (codes s) ≡ true)

has_words-AreInstructions : (v : Js) → has_words v ≡ true → AreInstructions v
unfolding has_words trim trim_start list_beq AreInstructions
has_words-AreInstructions (str s) h = elim (Bool-cases (any (λ c. not (is_space c)) (codes s))) [
  | inl e ↦ (s, refl, e)
  | inr e ↦
      let bare = trim_start-none (codes s) e in
      let wordless : has_words (str s) ≡ false = rw bare refl in absurd (cc)
]
has_words-AreInstructions undefined h = absurd (cc)
has_words-AreInstructions null h = absurd (cc)
has_words-AreInstructions (bool b) h = absurd (cc)
has_words-AreInstructions (num n) h = absurd (cc)
has_words-AreInstructions (other_num n) h = absurd (cc)
has_words-AreInstructions (arr_with vs ns) h = absurd (cc)
has_words-AreInstructions (obj fs) h = absurd (cc)

-- The keys that ChatGPT does not take.
abbrev pub foreign_keys : List String
foreign_keys =
    "max_output_tokens" ∷ "metadata" ∷ "prompt_cache_retention" ∷ "service_tier" ∷ "store"
    ∷ "temperature" ∷ "top_p" ∷ []

abbrev pub IsSanitized : Fields → Js → Type 0
IsSanitized fs v =
    All (λ k. property v k ≡ undefined) foreign_keys
    × AreInstructions (property v "instructions")
    × ((k : String)
        → All (λ j. j ≢ k) ("instructions" ∷ "text" ∷ foreign_keys)
        → property v k ≡ property (obj fs) k)

-- What is sent to ChatGPT of a request object has none of the seven foreign keys, has a text with a
-- character that is not white space as instructions, and has every other key but `text` with the
-- value it came with.
pub sanitize_codex_responses-keys :
    (fs : Fields) → IsSanitized fs (sanitize_codex_responses (obj fs))
unfolding property all is_left
sanitize_codex_responses-keys fs = (
  refused refused_keys fs refl (delete_fields-gone refused_keys fs),
  has_words-AreInstructions _ (has_instructions fs),
  λ k apart.
      sanitized-other fs k apart.0 apart.1.0
      ∙ ap or_undefined (delete_fields-other refused_keys k fs apart.1.1),
)
