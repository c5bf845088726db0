-- ===== src/Admin/Kube/Defaults.antt =====
-- InsertMissingKubeConfigsWithDefault, key by key.
use maos_core.Admin.Kube.{
  kube_configs_with_default_for_migratable, default_config, ActorRole, Content, get_value,
  insert_missing_kube_configs_with_default, insert_missing,
}
use maos_core.Common.{
  ◌⊎◌, ◌≡◌, refl, Bool, true, false, [], ◌∷◌, ◌++◌, Option, none, some, String, str_eq, str_eq_iff,
  Bool-cases, Option-cases, if◌then◌else◌, inl, inr, ◌∙◌, ap, subst,
}

abbrev fallback : Option String → Option String → Option String
fallback none b = b
fallback (some a) b = some a

get_value-append :
    (k key value : String) (content : Content)
    → get_value k (content ++ (key, value) ∷ [])
      ≡ fallback (get_value k content) (if str_eq key k then some value else none)
unfolding get_value
get_value-append k key value [] = refl
get_value-append k key value ((a, b) ∷ rest) = elim (Bool-cases (str_eq a k)) [
  | inl e ↦ rw e refl
  | inr e ↦ rw e (get_value-append k key value rest)
]

fallback-none : (o : Option String) → o ≡ fallback o none
fallback-none none = refl
fallback-none (some a) = refl

fallback_assoc :
    (a : Option String) (b : Bool) (value : String) (c : Option String)
    → fallback (fallback a (if b then some value else none)) c
      ≡ fallback a (if b then some value else c)
fallback_assoc none true value c = refl
fallback_assoc none false value c = refl
fallback_assoc (some a) b value c = refl

get_value-insert_missing :
    (k : String) (content defaults : Content)
    → get_value k (insert_missing content defaults)
      ≡ fallback (get_value k content) (get_value k defaults)
unfolding insert_missing get_value
get_value-insert_missing k content [] = fallback-none (get_value k content)
get_value-insert_missing k content ((key, value) ∷ defaults) =
    elim (Option-cases (get_value key content)) [
      | inl e ↦ rw e (
          get_value-insert_missing k (content ++ (key, value) ∷ []) defaults
          ∙ ap (λ o. fallback o (get_value k defaults)) (get_value-append k key value content)
          ∙ fallback_assoc (get_value k content) (str_eq key k) value (get_value k defaults))
      | inr (v, e) ↦
          rw e (
            get_value-insert_missing k content defaults
            ∙ kept_value (Bool-cases (str_eq key k)) v e)
    ]
  where
    kept_value :
        (str_eq key k ≡ true) ⊎ (str_eq key k ≡ false)
        → (v : String) → get_value key content ≡ some v
        → fallback (get_value k content) (get_value k defaults)
          ≡ fallback
              (get_value k content)
              (if str_eq key k then some value else get_value k defaults)
    kept_value (inl f) v e =
        let g : get_value k content ≡ some v =
          subst (λ x. get_value x content ≡ some v) ((str_eq_iff key k).0 f) e in
        rw g refl
    kept_value (inr f) v e = rw f refl

fallback_trans : (a b c : Option String) → fallback (fallback a b) c ≡ fallback a (fallback b c)
fallback_trans none b c = refl
fallback_trans (some x) b c = refl

-- After InsertMissingKubeConfigsWithDefault each key has the value it had; a key that was missing has
-- the default of the role, else, for a migratable actor, the default of the migrations, and a key
-- without a default is still missing.
pub get_value-insert_missing_kube_configs_with_default :
    (k : String) (content : Content) (role : ActorRole) (migratable : Bool)
    → get_value k (insert_missing_kube_configs_with_default content role migratable)
      ≡ fallback (get_value k content) (
          fallback
            (get_value k (default_config role))
            (if migratable then get_value k kube_configs_with_default_for_migratable else none))
unfolding insert_missing_kube_configs_with_default
get_value-insert_missing_kube_configs_with_default k content role true =
    get_value-insert_missing k (insert_missing content (default_config role))
      kube_configs_with_default_for_migratable
    ∙ ap (λ o. fallback o (get_value k kube_configs_with_default_for_migratable))
        (get_value-insert_missing k content (default_config role))
    ∙ fallback_trans (get_value k content) (get_value k (default_config role))
        (get_value k kube_configs_with_default_for_migratable)
get_value-insert_missing_kube_configs_with_default k content role false =
    get_value-insert_missing k content (default_config role)
    ∙ ap (fallback (get_value k content)) (fallback-none (get_value k (default_config role)))
