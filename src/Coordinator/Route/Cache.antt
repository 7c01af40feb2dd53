-- ===== src/Coordinator/Route/Cache.antt =====
-- src/openclaw-shared-worker.ts: the cache of `wizard.next` responses.
use clawsembly_kernel.Prelude.{◌≤◌, ◌≡◌, refl, some, List, [], ◌∷◌, arith, length}
use clawsembly_kernel.Prelude.JsMap
use clawsembly_kernel.Coordinator.{RuntimeMessage, NextKey, key_eq, Coordinator}
use clawsembly_kernel.Coordinator.Route.{evict, remember_wizard_next_response}

pub evict-length : (cache : List (NextKey × RuntimeMessage)) → length (evict cache) ≤ 32
unfolding evict
evict-length [] = omega arith
evict-length (entry ∷ cache) = ground (arith, evict-length cache)

evict_small : (cache : List (NextKey × RuntimeMessage)) → length cache ≤ 32 → evict cache ≡ cache
unfolding evict
evict_small [] h = refl
evict_small (entry ∷ cache) h = ground arith

get-evict-set :
    (key : NextKey) (r : RuntimeMessage) (cache : List (NextKey × RuntimeMessage))
    → length cache ≤ 32
    → JsMap.get key (evict (JsMap.set key r cache)) ≡ some r
unfolding evict JsMap.set JsMap.get
get-evict-set key r [] h = ground (arith, key_eq.beq_iff key key)
get-evict-set key r ((k, v) ∷ cache) h = ground (
  arith,
  key_eq.beq_iff k key,
  key_eq.beq_iff key key,
  JsMap.get-set key key r cache,
  JsMap.length-set-le key r cache,
  evict_small (JsMap.set key r cache),
)

-- However full the cache was allowed to be, storing a response leaves at most 32 of them, and the
-- response just stored is found under its key.
pub remember_wizard_next_response_lem :
    (key : NextKey) (r : RuntimeMessage) (s : Coordinator)
    → length s.wizard_next_response_cache ≤ 32
    → (length (remember_wizard_next_response key r s).wizard_next_response_cache ≤ 32)
      × (JsMap.get key (remember_wizard_next_response key r s).wizard_next_response_cache ≡ some r)
unfolding remember_wizard_next_response
remember_wizard_next_response_lem key r s h =
    (evict-length _, get-evict-set key r s.wizard_next_response_cache h)
