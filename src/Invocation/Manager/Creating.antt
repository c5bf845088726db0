-- ===== src/Invocation/Manager/Creating.antt =====
-- From the request that creates an invocation to what the caller reads back.

use maos_core.Common.{◌≡◌, ◌++◌, Bool, false, [], ◌∷◌, ℕ, none, some}
use maos_core.Common.Decimal.{format_nat}
use maos_core.Models.{Invocation, available}
use maos_core.Invocation.Codec.{Object, Codec}
use maos_core.Invocation.Manager.{World, invoke_topic, InsertResponse, created, unfinished}
use maos_core.Invocation.Manager.Waiting.{get_invocation_by_id}

module _ {V : Type 0} (codec : Codec V) where
  -- The answer to the request, what is notified, and what the caller reads.
  abbrev pub Creates : ℕ → ℕ → Object V → Bool → World → World × InsertResponse → Type 0
  Creates k queue_id meta listens w (w', r) =
      (r ≡ created (format_nat k))
      × (w'.notifications ≡ w.notifications ++ (invoke_topic, format_nat queue_id) ∷ [])
      × (get_invocation_by_id codec false listens (format_nat k) none [] w'.db
          ≡ some (
              unfinished (record {
                id = format_nat k;
                attempted_at = none;
                finalized_at = none;
                meta = meta;
                state = available;
                result = none;
                errors = none;
              })))
