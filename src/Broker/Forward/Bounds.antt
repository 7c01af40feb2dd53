-- ===== src/Broker/Forward/Bounds.antt =====
-- worker/byok-broker.mjs: what `boundedResponseBody` passes on.
use clawsembly_kernel.Prelude.{
  ℕ, ◌+◌, ◌≤◌, ◌<◌, ◌≡◌, refl, Bool, true, false, ◌⊎◌, inl, inr, List, [], ◌∷◌, arith, length, ltb,
  Bool-cases,
}
use clawsembly_kernel.Broker.{Bytes, max_response_bytes}
use clawsembly_kernel.Broker.Forward.Response.{bounded_chunks}

-- The bytes of all chunks.
pub total : List Bytes → ℕ
total [] = 0
total (chunk ∷ chunks) = length chunk + total chunks

-- All chunks, or a part of them that ends with an error.
abbrev pub IsBounded : ℕ → List Bytes → List Bytes × Bool → Type 0
IsBounded bytes chunks result =
    (bytes + total result.0 ≤ max_response_bytes)
    × (((result ≡ (chunks, false)) × (bytes + total chunks ≤ max_response_bytes))
        ⊎ ((result.1 ≡ true) × (max_response_bytes < bytes + total chunks)))

bounded_chunks-IsBounded :
    (bytes : ℕ) (chunks : List Bytes)
    → bytes ≤ max_response_bytes
    → IsBounded bytes chunks (bounded_chunks bytes chunks)
unfolding bounded_chunks total
bounded_chunks-IsBounded bytes [] h = (omega (arith, h), inl (refl, omega (arith, h)))
bounded_chunks-IsBounded bytes (chunk ∷ chunks) h =
    elim (Bool-cases (ltb max_response_bytes (bytes + length chunk))) [
      | inl e ↦ rw e (omega (arith, h), inr (refl, ground (arith, e)))
      | inr e ↦
          let (small, rest) =
            bounded_chunks-IsBounded (bytes + length chunk) chunks (ground (arith, e)) in
          rw e (
            omega (arith, small),
            elim rest [
              | inl (same, fits) ↦ inl (rw same refl, omega (arith, fits))
              | inr (cut, over) ↦ inr (cut, omega (arith, over))
            ],
          )
    ]

-- The body that is passed on has at most 2 MiB; it is all of the provider's if that has at most
-- 2 MiB, and ends with an error if it has more.
pub total-bounded_chunks-le : (chunks : List Bytes) → IsBounded 0 chunks (bounded_chunks 0 chunks)
total-bounded_chunks-le chunks = bounded_chunks-IsBounded 0 chunks (omega arith)
