-- ===== src/Js/Laws.antt =====
-- What the tests on JavaScript values decide.
use clawsembly_kernel.Prelude.{ℕ, ◌≡◌, ◌↔◌, String, true, false, arith, nat_eq, string_eq}
use clawsembly_kernel.Js.{
  Js, undefined, null, bool, num, other_num, str, arr_with, obj, is_text, is_num, is_true, is_false,
}

pub is_text_iff : (t : String) (v : Js) → (is_text t v ≡ true) ↔ (v ≡ str t)
is_text_iff t (str s) = ground (arith, string_eq.beq_iff s t)
is_text_iff t undefined = ground arith
is_text_iff t null = ground arith
is_text_iff t (bool b) = ground arith
is_text_iff t (num n) = ground arith
is_text_iff t (other_num n) = ground arith
is_text_iff t (arr_with vs fs) = ground arith
is_text_iff t (obj fs) = ground arith

pub is_num_iff : (n : ℕ) (v : Js) → (is_num n v ≡ true) ↔ (v ≡ num n)
is_num_iff n v = ground arith

pub is_true_iff : (v : Js) → (is_true v ≡ true) ↔ (v ≡ bool true)
is_true_iff v = ground arith

pub is_false_iff : (v : Js) → (is_false v ≡ true) ↔ (v ≡ bool false)
is_false_iff v = ground arith
