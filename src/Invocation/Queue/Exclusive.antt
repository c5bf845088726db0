-- ===== src/Invocation/Queue/Exclusive.antt =====
-- Nobody is given an invocation that someone has taken before.
use maos_core.Common.{
  subst, ap, ◌⊎◌, some, ◌≡◌, refl, ◌≢◌, ℕ, Bool, List, [], ◌∷◌, arith, inl, inr, ◌≤◌, sym, ◌∙◌,
}
use maos_core.Common.Int.{pos}
use maos_core.Models.{Invocation, InvocationState, available}
use maos_core.Invocation.Queue.{Db, find_by_id, invocation_get_available, claim}
use maos_core.Invocation.Queue.Claim.{claim_next, Nothing, Takes}
use maos_core.Invocation.Queue.Evolution.{stage, run-Becomes, Advances}
use maos_core.Invocation.Queue.Invariant.{Inv, run-Inv, one_row}
use maos_core.Invocation.Queue.Steps.{Op, run}

stage_taken : (s : InvocationState) → s ≢ available → 1 ≤ stage s
stage_taken available h = absurd (h refl)
stage_taken _ h = omega arith

still_taken : (i j : Invocation) → Advances i j → i.state ≢ available → j.state ≢ available
still_taken i j a h e = absurd (omega (arith, stage_taken i.state h, a.stage_grows, ap stage e))

module _ (now : ℕ) (locked : ℕ → Bool) (worker queue_id k : ℕ) (db : Db) where
  not_again :
      (i j : Invocation)
      → find_by_id db (pos k) ≡ some i
      → i.state ≢ available
      → (r : Db × List Invocation)
      → Nothing queue_id locked db r ⊎ Takes queue_id locked now worker db r
      → r.1 ≡ j ∷ []
      → j.id ≢ k
  not_again i j f h (db', rows) (inl (e, _, _)) g q = cc
  not_again i j f h (db', rows) (inr (r, found, next, e, _, _)) g q =
      let same : j ≡ claim now worker r = cc in
      let id : r.id ≡ k = sym (ap (λ (x : Invocation). x.id) same) ∙ q in
      let found' = subst (λ n. find_by_id db (pos n) ≡ some r) id found in
      h (
        ap (λ (x : Invocation). x.state) (one_row (find_by_id db (pos k)) i r f found')
        ∙ next.0.waits)

-- In a table that keeps the invariant: once an invocation has left the state available, no later
-- request for one invocation, by any worker on any queue and after any statements in between, is
-- given the same invocation.
pub taken_once :
    (ops : List Op) (db : Db) (k : ℕ) (i j : Invocation) (now worker queue_id : ℕ)
    (locked : ℕ → Bool)
    → Inv db
    → find_by_id db (pos k) ≡ some i
    → i.state ≢ available
    → (invocation_get_available now locked worker queue_id 1 (run ops db)).1 ≡ j ∷ []
    → j.id ≢ k
taken_once ops db k i j now worker queue_id locked v f h e =
    let (i', f', a) = run-Becomes ops db k i v f in
    not_again now locked worker queue_id k (run ops db) i' j f' (still_taken i i' a h)
      (invocation_get_available now locked worker queue_id 1 (run ops db))
      (claim_next now locked worker queue_id (run ops db) (run-Inv ops db v)) e
