-- ===== src/AgentTurn/Payloads.antt =====
-- src/openclaw-agent-turn-response.ts: the two payloads of a workspace tool turn.
use clawsembly_kernel.Prelude.{
  ◌≡◌, String, Bool, true, ◌&&◌, ◌⊎◌, ◌↔◌, List, [], ◌∷◌, ◌++◌, arith, all, filter_by, length,
  codes, codes_eq, nat_eq, ◌==◌, ℕ,
}
use clawsembly_kernel.Js.{
  Js, undefined, null, bool, num, other_num, str, arr_with, obj, property, is_record, is_array,
  items,
}
use clawsembly_kernel.AgentTurn.{
  trim, is_exact_text, plain_denial, decorated_denial, is_workspace_denied_write_text,
  are_workspace_payloads,
}
use clawsembly_kernel.AgentTurn.Meaning.{Reads, is_exact_text_iff}

-- The value is a text of these code units between white space.
abbrev pub Says : List ℕ → Js → Type 0
Says units (str s) = trim (codes s) ≡ units
Says units _ = ⊥

-- One of the two reports of a denied write, after a warning sign, in the second form with a hand.
abbrev pub IsDenied : Js → Type 0
IsDenied text =
    Says (0x26a0 ∷ 0xfe0f ∷ codes " Write: `to /openclaw/.clawsembly-outside.txt` failed") text
    ⊎ Says
        (0x26a0 ∷ 0xfe0f ∷ codes " "
          ++ (0x270d
              ∷ 0xfe0f
              ∷ codes " Write: `to /openclaw/.clawsembly-outside.txt (14 chars)` failed"))
        text

abbrev pub ExactlyOne : (Js → Type 0) → Js → Js → Type 0
ExactlyOne P first second = (P first × (P second → ⊥)) ⊎ (P second × (P first → ⊥))

-- Two records, of which exactly one says what is expected and exactly one that a write was denied.
abbrev pub ArePair : String → List Js → Type 0
ArePair expected (first ∷ second ∷ []) =
    (is_record first ≡ true)
    × (is_record second ≡ true)
    × ExactlyOne (λ payload. Reads expected (property payload "text")) first second
    × ExactlyOne (λ payload. IsDenied (property payload "text")) first second
ArePair expected _ = ⊥

is_workspace_denied_write_text_iff :
    (v : Js) → (is_workspace_denied_write_text v ≡ true) ↔ IsDenied v
unfolding is_workspace_denied_write_text
is_workspace_denied_write_text_iff (str s) = ground (
  arith,
  codes_eq.beq_iff (trim (codes s)) plain_denial,
  codes_eq.beq_iff (trim (codes s)) decorated_denial,
)
is_workspace_denied_write_text_iff undefined = ground arith
is_workspace_denied_write_text_iff null = ground arith
is_workspace_denied_write_text_iff (bool b) = ground arith
is_workspace_denied_write_text_iff (num n) = ground arith
is_workspace_denied_write_text_iff (other_num n) = ground arith
is_workspace_denied_write_text_iff (arr_with vs fs) = ground arith
is_workspace_denied_write_text_iff (obj fs) = ground arith

one_iff :
    (p : Js → Bool) (P : Js → Type 0) (a b : Js)
    → ((v : Js) → (p v ≡ true) ↔ P v)
    → ((length (filter_by p (a ∷ b ∷ [])) == 1) ≡ true) ↔ ExactlyOne P a b
unfolding filter_by
one_iff p P a b h = ground (arith, h a, h b, nat_eq.beq_iff (length (filter_by p (a ∷ b ∷ []))) 1)

pair_test_iff :
    (expected : String) (payloads : List Js)
    → ((length payloads == 2
          && (all is_record payloads
              && (length (filter_by (λ p. is_exact_text expected (property p "text")) payloads) == 1
                  && length
                      (filter_by (λ p. is_workspace_denied_write_text (property p "text")) payloads)
                    == 1)))
        ≡ true)
      ↔ ArePair expected payloads
unfolding all
pair_test_iff expected [] = ground arith
pair_test_iff expected (a ∷ []) = ground arith
pair_test_iff expected (a ∷ b ∷ []) = ground (
  arith,
  one_iff (λ p. is_exact_text expected (property p "text"))
      (λ p. Reads expected (property p "text")) a b
      (λ p. is_exact_text_iff expected (property p "text")),
  one_iff (λ p. is_workspace_denied_write_text (property p "text"))
      (λ p. IsDenied (property p "text")) a b
      (λ p. is_workspace_denied_write_text_iff (property p "text")),
)
pair_test_iff expected (a ∷ b ∷ c ∷ payloads) = ground arith

pub are_workspace_payloads_iff :
    (expected : String) (v : Js)
    → (are_workspace_payloads expected v ≡ true)
      ↔ ((is_array v ≡ true) × ArePair expected (items v))
unfolding are_workspace_payloads
are_workspace_payloads_iff expected v = ground (arith, pair_test_iff expected (items v))
