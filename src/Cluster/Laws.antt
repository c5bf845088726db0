-- ===== src/Cluster/Laws.antt =====
-- What the cluster promises of its calls, and what the writes of the controller leave of the objects
-- that carry the label of the server.
use maos_core.Admin.Registry.{any_row}
use maos_core.Cluster.{
  deployment_struct, panics, lookup_error, absent, present, ensure_account, require_account,
  delete_error, refuse_existing, write_secret, create_or_update_api_key, Lookup,
  create_service_account, update_deployment_object, create_deployment_object, failed, Listed, ok,
  after, as_result, Result, Api,
}
use maos_core.Cluster.Objects.{
  deployment_struct, maos_labels, DeploymentParams, Kind, Labels, Object, accounts, api_key_secret,
  deployments, ingresses, same_kind, secrets, service_account, services, set_label,
}
use maos_core.Common.Decimal.{Text}
use maos_core.Common.{
  ◌≡◌, ◌≢◌, refl, sym, arith, Bool, true, false, not, ◌&&◌, ◌||◌, List, [], ◌∷◌, some, String,
  str_eq, Bool-cases, if◌then◌else◌, inl, inr, ◌∙◌, ap, subst,
}

-- The selector created-by=maos.
unfoldable pub carries : Labels → Bool
unfolding any_row
carries labels = any_row (λ l. str_eq l.0 "created-by" && str_eq l.1 "maos") labels

-- After a write the object is there under its labels, and the others are as they were.
abbrev pub written : Object → Kind → String → Bool → Bool
written o k n before = if same_kind o.kind k && str_eq o.name n then carries o.labels else before

-- `has k n s` says that the state s shows an object of the kind and the name with the label.
pub record Laws {S : Type 0} (api : Api S) (has : Kind → String → S → Bool) : Type 0 where
  pub listed :
      (k : Kind) (s : S) (l : List Listed)
      → api.list k s ≡ some l
      → (n : String) → any_row (λ x. str_eq x.name n) l ≡ has k n s
  pub created :
      (o : Object) (s : S) (k : Kind) (n : String)
      → (api.create o s).1 ≡ true
      → has k n (api.create o s).0 ≡ written o k n (has k n s)
  pub updated :
      (o : Object) (s : S) (k : Kind) (n : String)
      → (api.update o s).1 ≡ true
      → has k n (api.update o s).0 ≡ written o k n (has k n s)
  pub removed :
      (j : Kind) (m : String) (s : S) (k : Kind) (n : String)
      → (api.delete j m s).1 ≢ delete_error
      → has k n (api.delete j m s).0 ≡ not (same_kind j k && str_eq m n) && has k n s

-- The kinds that a deployment set makes.
abbrev pub shown : Kind → Bool
shown deployments = true
shown services = true
shown ingresses = true
shown secrets = false
shown accounts = false

pub carries-set_label : (l : Labels) → carries (set_label "created-by" "maos" l) ≡ true
unfolding carries set_label
carries-set_label [] = refl
carries-set_label ((k, v) ∷ rest) = elim (Bool-cases (str_eq k "created-by")) [
  | inl e ↦ rw e refl
  | inr e ↦ rw (e, carries-set_label rest) (ground arith)
]

-- Of `after` that ends well, both parts end well.
pub after_ok :
    {S : Type 0} (r : S × Result) (f : S → S × Result)
    → (after r f).1 ≡ ok
    → (r.1 ≡ ok) × ((f r.0).1 ≡ ok) × ((after r f).0 ≡ (f r.0).0)
after_ok (s, ok) f h = (refl, h, refl)
after_ok (s, failed) f h = absurd cc
after_ok (s, panics) f h = absurd cc

pub as_result_ok :
    {S : Type 0} (q : S × Bool) → (as_result q).1 ≡ ok → (q.1 ≡ true) × ((as_result q).0 ≡ q.0)
as_result_ok (s, true) h = (refl, refl)
as_result_ok (s, false) h = absurd cc

module _ {S : Type 0} (api : Api S) (has : Kind → String → S → Bool) (laws : Laws api has) where
  -- The objects of the three kinds are the same.
  abbrev pub Same : S → S → Type 0
  Same s s' = (k : Kind) (n : String) → shown k ≡ true → has k n s' ≡ has k n s

  -- One more object is there, or it was there before.
  abbrev pub Adds : Kind → String → S → S → Type 0
  Adds j m s s' =
      (k : Kind) (n : String)
      → shown k ≡ true
      → has k n s' ≡ (same_kind j k && str_eq m n) || has k n s

  -- An object of another kind.
  written_same :
      (o : Object) (k : Kind) (n : String) (b : Bool)
      → same_kind o.kind k ≡ false
      → written o k n b ≡ b
  written_same o k n b h = rw h refl

  written_adds :
      (o : Object) (k : Kind) (n : String) (b : Bool)
      → carries o.labels ≡ true
      → written o k n b ≡ (same_kind o.kind k && str_eq o.name n) || b
  written_adds o k n b h = elim (Bool-cases (same_kind o.kind k && str_eq o.name n)) [
    | inl e ↦ rw (e, h) refl
    | inr e ↦ rw e refl
  ]

  pub create-Adds :
      (o : Object) (s : S)
      → carries o.labels ≡ true
      → (as_result (api.create o s)).1 ≡ ok
      → Adds o.kind o.name s (as_result (api.create o s)).0
  create-Adds o s c h k n e =
      let (t, f) = as_result_ok (api.create o s) h in
      rw f (laws.created o s k n t ∙ written_adds o k n (has k n s) c)

  pub update-Adds :
      (o : Object) (s : S)
      → carries o.labels ≡ true
      → (as_result (api.update o s)).1 ≡ ok
      → Adds o.kind o.name s (as_result (api.update o s)).0
  update-Adds o s c h k n e =
      let (t, f) = as_result_ok (api.update o s) h in
      rw f (laws.updated o s k n t ∙ written_adds o k n (has k n s) c)

  create-Same :
      (o : Object) (s : S)
      → ((k : Kind) → shown k ≡ true → same_kind o.kind k ≡ false)
      → (as_result (api.create o s)).1 ≡ ok
      → Same s (as_result (api.create o s)).0
  create-Same o s c h k n e =
      let (t, f) = as_result_ok (api.create o s) h in
      rw f (laws.created o s k n t ∙ written_same o k n (has k n s) (c k e))

  update-Same :
      (o : Object) (s : S)
      → ((k : Kind) → shown k ≡ true → same_kind o.kind k ≡ false)
      → (as_result (api.update o s)).1 ≡ ok
      → Same s (as_result (api.update o s)).0
  update-Same o s c h k n e =
      let (t, f) = as_result_ok (api.update o s) h in
      rw f (laws.updated o s k n t ∙ written_same o k n (has k n s) (c k e))

  pub secrets_hidden : (k : Kind) → shown k ≡ true → same_kind secrets k ≡ false
  unfolding same_kind
  secrets_hidden deployments h = refl
  secrets_hidden services h = refl
  secrets_hidden ingresses h = refl
  secrets_hidden secrets h = absurd cc
  secrets_hidden accounts h = absurd cc

  pub accounts_hidden : (k : Kind) → shown k ≡ true → same_kind accounts k ≡ false
  unfolding same_kind
  accounts_hidden deployments h = refl
  accounts_hidden services h = refl
  accounts_hidden ingresses h = refl
  accounts_hidden secrets h = absurd cc
  accounts_hidden accounts h = absurd cc

  write_secret-Same :
      (o : Object) (l : Lookup) (s : S)
      → ((k : Kind) → shown k ≡ true → same_kind o.kind k ≡ false)
      → (write_secret api o l s).1 ≡ ok
      → Same s (write_secret api o l s).0
  write_secret-Same o present s c h = update-Same o s c h
  write_secret-Same o absent s c h = create-Same o s c h
  write_secret-Same o lookup_error s c h = absurd cc

  api_key-Same :
      (params : DeploymentParams) (s : S)
      → (create_or_update_api_key api params s).1 ≡ ok
      → Same s (create_or_update_api_key api params s).0
  unfolding create_or_update_api_key
  api_key-Same params s h =
      write_secret-Same (api_key_secret params) (api.get secrets (api_key_secret params).name s) s
        (unfold api_key_secret in secrets_hidden) h

  ensure_account-Same :
      (name : String) (l : Lookup) (s : S)
      → (ensure_account api name l s).1 ≡ ok
      → Same s (ensure_account api name l s).0
  ensure_account-Same name present s h = λ k n e. refl
  ensure_account-Same name absent s h =
      create-Same (service_account name) s (unfold service_account in accounts_hidden) h
  ensure_account-Same name lookup_error s h = absurd cc

  account-Same :
      (name : String) (s : S)
      → (create_service_account api name s).1 ≡ ok
      → Same s (create_service_account api name s).0
  unfolding create_service_account
  account-Same name s h = ensure_account-Same name (api.get accounts name s) s h

  refuse_existing_same : (l : Lookup) (s : S) → (refuse_existing api l s).0 ≡ s
  refuse_existing_same present s = refl
  refuse_existing_same absent s = refl
  refuse_existing_same lookup_error s = refl

  require_account_same : (l : Lookup) (s : S) → (require_account api l s).0 ≡ s
  require_account_same present s = refl
  require_account_same absent s = refl
  require_account_same lookup_error s = refl

  Same-Adds : (j : Kind) (m : String) (s t u : S) → Same s t → Adds j m t u → Adds j m s u
  Same-Adds j m s t u a b k n e = b k n e ∙ ap (λ x. (same_kind j k && str_eq m n) || x) (a k n e)

  -- A part that changes nothing, before one that adds the object.
  after-Adds :
      (r : S × Result) (f : S → S × Result) (j : Kind) (m : String) (s : S)
      → (after r f).1 ≡ ok
      → (r.1 ≡ ok → Same s r.0)
      → ((f r.0).1 ≡ ok → Adds j m r.0 (f r.0).0)
      → Adds j m s (after r f).0
  after-Adds r f j m s h a b =
      let (x, y, e) = after_ok r f h in
      subst (λ t. Adds j m s t) (sym e) (Same-Adds j m s r.0 (f r.0).0 (a x) (b y))

  struct_carries :
      (created_at : Text) (params : DeploymentParams) (account : String)
      → carries (deployment_struct created_at params account).labels ≡ true
  unfolding deployment_struct maos_labels
  struct_carries created_at params account = carries-set_label params.labels

  pub create_deployment_object-Adds :
      (created_at : Text) (params : DeploymentParams) (s : S)
      → (create_deployment_object api created_at params s).1 ≡ ok
      → Adds deployments params.name s (create_deployment_object api created_at params s).0
  unfolding create_deployment_object deployment_struct
  create_deployment_object-Adds created_at params s h =
      after-Adds (refuse_existing api (api.get deployments params.name s) s) _ deployments
        params.name s h
        (λ a k n e. ap (has k n) (refuse_existing_same (api.get deployments params.name s) s))
        (λ b.
          after-Adds (create_service_account api params.name _) _ deployments params.name _ b
            (λ c. account-Same params.name _ c)
            (λ c.
              after-Adds (create_or_update_api_key api params _) _ deployments params.name _ c
                (λ d. api_key-Same params _ d)
                (λ d.
                  create-Adds (deployment_struct created_at params params.name) _
                    (struct_carries created_at params params.name) d)))

  pub update_deployment_object-Adds :
      (created_at : Text) (existing : Listed) (params : DeploymentParams) (s : S)
      → (update_deployment_object api created_at existing params s).1 ≡ ok
      → Adds deployments params.name s (update_deployment_object api created_at existing params s).0
  unfolding update_deployment_object deployment_struct
  update_deployment_object-Adds created_at existing params s h =
      after-Adds (create_or_update_api_key api params s) _ deployments params.name s h
        (λ a. api_key-Same params s a)
        (λ b.
          after-Adds (require_account api (api.get accounts existing.account t) t) write deployments
            params.name t b
            (λ c k n e. ap (has k n) (require_account_same (api.get accounts existing.account t) t))
            (λ c.
              update-Adds (deployment_struct created_at params existing.account) _
                (struct_carries created_at params existing.account) c))
    where
      t : S
      t = (create_or_update_api_key api params s).0

      write : S → S × Result
      write s' = as_result (api.update (deployment_struct created_at params existing.account) s')
