-- ===== src/Broker/Forward/Response.antt =====
-- worker/byok-broker.mjs: what is passed on of the provider's answer (`boundedResponseBody`,
-- `selectedResponseHeaders`).
use clawsembly_kernel.Prelude.{
  ℕ, ◌+◌, Bool, true, false, List, [], ◌∷◌, if◌then◌else◌, ◌==◌, codes_eq, ltb, length, codes,
}
use clawsembly_kernel.JsText.{Text}
use clawsembly_kernel.Broker.{Bytes, max_response_bytes}

-- The chunks that `boundedResponseBody` passes on, and whether it breaks off with an error.
unfoldable pub bounded_chunks : ℕ → List Bytes → List Bytes × Bool
bounded_chunks bytes [] = ([], false)
bounded_chunks bytes (chunk ∷ chunks) =
    let rest = bounded_chunks (bytes + length chunk) chunks in
    if ltb max_response_bytes (bytes + length chunk) then ([], true) else (chunk ∷ rest.0, rest.1)

abbrev pub header : Text → List (Text × Text) → Text
header name [] = []
header name ((n, value) ∷ headers) = if n == name then value else header name headers

abbrev pub selected_names : List Text
selected_names =
    codes "Content-Type"
    ∷ codes "OpenAI-Organization"
    ∷ codes "OpenAI-Processing-Ms"
    ∷ codes "X-Request-Id"
    ∷ []

unfoldable pub select_headers : List Text → List (Text × Text) → List (Text × Text)
select_headers [] headers = []
select_headers (name ∷ names) headers =
    let rest = select_headers names headers in
    let value = header name headers in if value == [] then rest else (name, value) ∷ rest

unfoldable pub selected_response_headers : List (Text × Text) → List (Text × Text)
selected_response_headers headers =
    (codes "Cache-Control", codes "no-store")
    ∷ (codes "X-Clawsembly-Credential-Boundary", codes "opaque-capability")
    ∷ select_headers selected_names headers
