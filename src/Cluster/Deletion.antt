-- ===== src/Cluster/Deletion.antt =====
-- The deletion of what is obsolete, and UpdateDeploymentSet as a whole.
use maos_core.Cluster.Progress.{holds_name-map}
use Option.{none}
use mathlib.Core.List.{[]}
use maos_core.Cluster.Convergence.{set-At, At, wanted}
use maos_core.Cluster.Laws.{secrets_hidden, accounts_hidden, shown, Laws}
use maos_core.Admin.Registry.{any_row}
use maos_core.Cluster.Objects.{secrets, same_kind}
use maos_core.Cluster.{
  panics, was_absent, process_deployment_set, names_of, listing, listed_all, deleted, update_listed,
  failed, api_key_name, ok, ◌∷◌, delete_after, some, Option, accounts, secrets, Listed,
  delete_secret_of, delete_account, deployments, DeploymentParams, Result, Deleted, List, Text,
  services, delete_obsolete_resources, delete_deployment_resources, ingresses, str_eq, delete_error,
  Bool, String, Kind, any_row, delete_each, Api, update_deployment_set,
}
use mathlib.Core.Option
use maos_core.Common.{sym, ap, arith, ◌∙◌, ◌≡◌, ◌≢◌, refl, true, false, not, ◌&&◌, ◌||◌}

-- The three deletions, at one of the kinds.
own_kind :
    (k : Kind) (f : Kind → Bool) (b : Bool)
    → shown k ≡ true
    → not (same_kind ingresses k && f ingresses)
        && (not (same_kind services k && f services)
            && (not (same_kind deployments k && f deployments) && b))
      ≡ not (f k) && b
unfolding same_kind
own_kind deployments f b e = refl
own_kind services f b e = refl
own_kind ingresses f b e = refl
own_kind secrets f b e = absurd cc
own_kind accounts f b e = absurd cc

-- The names that remain when each of a list is deleted.
delete_each_has :
    {S : Type 0} (api : Api S) (has : Kind → String → S → Bool) (j : Kind) (remove : String → S → S)
    → ((m : String) (s : S) (k : Kind) (n : String)
        → shown k ≡ true
        → has k n (remove m s) ≡ not (same_kind j k && str_eq m n) && has k n s)
    → (names : List String) (s : S) (k : Kind) (n : String) → shown k ≡ true
    → has k n (delete_each api remove names s)
      ≡ not (same_kind j k && any_row (λ m. str_eq m n) names) && has k n s
unfolding delete_each any_row
delete_each_has api has j remove h [] s k n e = ground arith
delete_each_has api has j remove h (m ∷ names) s k n e =
    delete_each_has api has j remove h names (remove m s) k n e ∙ rw (h m s k n e) (ground arith)

module _ {S : Type 0} (api : Api S) (has : Kind → String → S → Bool) (laws : Laws api has)
    (deletes : (k : Kind) (n : String) (s : S) → (api.delete k n s).1 ≢ delete_error) where
  delete_account_has :
      (name : String) (q : S × Deleted) (k : Kind) (n : String)
      → shown k ≡ true
      → has k n (delete_account api name q) ≡ has k n q.0
  delete_account_has name (s, deleted) k n e =
      laws.removed accounts name s k n (deletes accounts name s)
      ∙ rw (accounts_hidden api has laws k e) refl
  delete_account_has name (s, was_absent) k n e =
      laws.removed accounts name s k n (deletes accounts name s)
      ∙ rw (accounts_hidden api has laws k e) refl
  delete_account_has name (s, delete_error) k n e = refl

  delete_secret_has :
      (name : String) (q : S × Deleted) (k : Kind) (n : String)
      → shown k ≡ true
      → has k n (delete_secret_of api name q) ≡ has k n q.0
  delete_secret_has name (s, deleted) k n e =
      delete_account_has name (api.delete secrets (api_key_name name) s) k n e
      ∙ laws.removed secrets (api_key_name name) s k n (deletes secrets (api_key_name name) s)
      ∙ rw (secrets_hidden api has laws k e) refl
  delete_secret_has name (s, was_absent) k n e = refl
  delete_secret_has name (s, delete_error) k n e = refl

  resources_has :
      (m : String) (s : S) (k : Kind) (n : String)
      → shown k ≡ true
      → has k n (delete_deployment_resources api m s)
        ≡ not (same_kind deployments k && str_eq m n) && has k n s
  unfolding delete_deployment_resources
  resources_has m s k n e =
      delete_secret_has m (api.delete deployments m s) k n e
      ∙ laws.removed deployments m s k n (deletes deployments m s)

  obsolete_has :
      (obsolete : Kind → List String) (s : S) (k : Kind) (n : String)
      → shown k ≡ true
      → has k n (delete_obsolete_resources api obsolete s)
        ≡ not (any_row (λ m. str_eq m n) (obsolete k)) && has k n s
  unfolding delete_obsolete_resources
  obsolete_has obsolete s k n e =
      delete_each_has api has ingresses _
        (λ m s k n e. laws.removed ingresses m s k n (deletes ingresses m s)) (obsolete ingresses) _
        k n e
      ∙ ap (λ b. not (same_kind ingresses k && any_row (λ m. str_eq m n) (obsolete ingresses)) && b)
          (delete_each_has api has services _
              (λ m s k n e. laws.removed services m s k n (deletes services m s))
              (obsolete services) _ k n e
            ∙ ap
                (λ b.
                  not (same_kind services k && any_row (λ m. str_eq m n) (obsolete services)) && b)
                (delete_each_has api has deployments _ resources_has (obsolete deployments) s k n
                  e))
      ∙ own_kind k (λ k. any_row (λ m. str_eq m n) (obsolete k)) (has k n s) e

  -- Only a loop that ends well is followed by the deletions.
  delete_after_ok :
      (q : (S × (Kind → List String)) × Result)
      → (delete_after api q).1 ≡ ok
      → (q.1 ≡ ok) × ((delete_after api q).0 ≡ delete_obsolete_resources api q.0.1 q.0.0)
  delete_after_ok ((s, obsolete), ok) h = (refl, refl)
  delete_after_ok ((s, obsolete), failed) h = absurd cc
  delete_after_ok ((s, obsolete), panics) h = absurd cc

  -- Before the loop, all that is listed is there and counts as obsolete.
  start-At :
      (ds ss gs : List Listed) (s : S)
      → api.list deployments s ≡ some ds
      → api.list services s ≡ some ss
      → api.list ingresses s ≡ some gs
      → At api has laws
          (listing api ds ss gs)
          (λ k n. false)
          (s, names_of api (listing api ds ss gs))
  start-At ds ss gs s d e f = record {
    now = λ k n h. here k n h;
    left = λ k n. holds_name-map n (listing api ds ss gs k) ∙ ground arith;
  }
    where
      here :
          (k : Kind) (n : String)
          → shown k ≡ true
          → has k n s ≡ false || any_row (λ l. str_eq l.name n) (listing api ds ss gs k)
      here deployments n h = sym (laws.listed deployments s ds d n)
      here services n h = sym (laws.listed services s ss e n)
      here ingresses n h = sym (laws.listed ingresses s gs f n)
      here secrets n h = absurd cc
      here accounts n h = absurd cc

  listed_has :
      (created_at : Text) (set : List DeploymentParams) (s : S) (o1 o2 o3 : Option (List Listed))
      → api.list deployments s ≡ o1
      → api.list services s ≡ o2
      → api.list ingresses s ≡ o3
      → (update_listed api created_at set s (listed_all api o1 o2 o3)).1 ≡ ok
      → (k : Kind) (n : String) → shown k ≡ true
      → has k n (update_listed api created_at set s (listed_all api o1 o2 o3)).0 ≡ wanted set k n
  listed_has created_at set s none o2 o3 d e f h k n i = absurd cc
  listed_has created_at set s (some ds) none o3 d e f h k n i = absurd cc
  listed_has created_at set s (some ds) (some ss) none d e f h k n i = absurd cc
  listed_has created_at set s (some ds) (some ss) (some gs) d e f h k n i =
      let existing = listing api ds ss gs in
      let q = process_deployment_set api created_at existing set (s, names_of api existing) in
      let (a, b) = delete_after_ok q h in
      let p =
        set-At api has laws existing (λ k n. false) created_at set (s, names_of api existing)
          (start-At ds ss gs s d e f) a in
      ap (has k n) b ∙ obsolete_has q.0.1 q.0.0 k n i ∙ rw (p.left k n, p.now k n i) (ground arith)

-- For a cluster that keeps the documented laws of its calls, and where no deletion fails: when
-- UpdateDeploymentSet ends without an error, the deployments, services and ingresses that carry the
-- label created-by=maos are exactly those that the set asks for, whatever there was before: a
-- deployment for each entry, its service under the name of the service where it has one, and its
-- ingress where it has one.
pub update_deployment_set_has :
    {S : Type 0} (api : Api S) (has : Kind → String → S → Bool)
    → Laws api has
    → ((k : Kind) (n : String) (s : S) → (api.delete k n s).1 ≢ delete_error)
    → (created_at : Text) (set : List DeploymentParams) (s : S)
    → (update_deployment_set api created_at set s).1 ≡ ok
    → (k : Kind) (n : String) → shown k ≡ true
    → has k n (update_deployment_set api created_at set s).0 ≡ wanted set k n
unfolding update_deployment_set
update_deployment_set_has api has laws deletes created_at set s h k n i =
    listed_has api has laws deletes created_at set s (api.list deployments s) (api.list services s)
      (api.list ingresses s) refl refl refl h k n i
