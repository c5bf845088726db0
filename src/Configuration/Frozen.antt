-- ===== src/Configuration/Frozen.antt =====
-- The configurations of a suite that was deployed: what the statements leave of them.
use maos_core.Configuration.{
  reviews, set_content, can_update, ℤ, Bytes, open_suite, config_update_inactive_content_by_creator,
}
use maos_core.Common.Table.{update_where}
use maos_core.Admin.Registry.{any_row}
use maos_core.Common.Membership.{All-map, All-append, All, All-update}
use maos_core.Deployment.System.Closure.{Closed}
use maos_core.Deployment.Store.Statements.{activate, config_suite_activate}
use maos_core.Models.{ConfigSuite, Deployment, Fetched, Config}
use maos_core.Deployment.Store.{name_taken, Store, is_some, insert_with}
use mathlib.Core.List.{Memᴰ}
use maos_core.Common.{
  str_eq, if_false, ◌==◌, ◌≡◌, ◌<◌, ◌⊎◌, refl, sym, arith, Bool, true, false, ◌&&◌, ◌||◌, List, [],
  ◌∷◌, ◌++◌, ℕ, Option, some, String, Bool-cases, if_rule, inl, inr, ◌∙◌, ap,
}

-- A configuration of a suite with a known id, whose row says when it was deployed.
pub record Frozen (c : Config) (s : Store) : Type 0 where
  pub stored : Memᴰ c s.configs
  pub suite : ℕ
  pub owner : c.config_suite_id ≡ some suite
  pub given : suite < s.next_suite_id
  pub deployed :
      All
        (λ (t : ConfigSuite). ((t.id == suite) ≡ false) ⊎ (is_some t.deployed_at ≡ true))
        s.config_suites

Memᴰ-append_left : {c : Config} (t u : List Config) → Memᴰ c t → Memᴰ c (t ++ u)
Memᴰ-append_left [] u m = elim m [ ]
Memᴰ-append_left (x ∷ xs) u (Memᴰ.head e) = Memᴰ.head e
Memᴰ-append_left (x ∷ xs) u (Memᴰ.tail m) = Memᴰ.tail (Memᴰ-append_left xs u m)

insert-Frozen :
    (c : Config) (preferred : Option ℕ → Bool) (now : ℕ) (name user : String)
    (reviewers : Option (List String)) (s : Store)
    → Frozen c s
    → Frozen c (insert_with preferred now name user reviewers s).0
unfolding insert_with
insert-Frozen c preferred now name user reviewers s v =
    if_rule (λ (q : Store × Fetched Deployment). Frozen c q.0) (name_taken name s.deployments) v
      (record {
        stored = Memᴰ-append_left s.configs _ v.stored;
        suite = v.suite;
        owner = v.owner;
        given = omega (arith, v.given);
        deployed = All-append _ s.config_suites _ v.deployed (inl (ground (arith, v.given)), tt);
      })

activate-Frozen :
    (c : Config) (fails : Bool) (now id : ℕ) (user : String) (s : Store)
    → Frozen c s
    → Frozen c (config_suite_activate fails now id user s).0
unfolding config_suite_activate is_some
activate-Frozen c true now id user s v = v
activate-Frozen c false now id user s v = record {
  stored = v.stored;
  suite = v.suite;
  owner = v.owner;
  given = v.given;
  deployed =
      All-update _ (λ t. true) (activate now id user) s.config_suites (λ t m h. dated t h)
        v.deployed;
}
  where
    dated :
        (t : ConfigSuite)
        → ((t.id == v.suite) ≡ false) ⊎ (is_some t.deployed_at ≡ true)
        → (((activate now id user t).id == v.suite) ≡ false)
          ⊎ (is_some (activate now id user t).deployed_at ≡ true)
    dated t h = elim (Bool-cases (t.id == id)) [
      | inl e ↦ rw e (inr refl)
      | inr e ↦ elim (Bool-cases (t.active)) [ inl f ↦ rw (e, f) h | inr f ↦ rw (e, f) h ]
    ]

pub Frozen-Closed : (c : Config) → Closed (Frozen c)
Frozen-Closed c = record {
  deployments = λ s t v. record {
    stored = v.stored;
    suite = v.suite;
    owner = v.owner;
    given = v.given;
    deployed = v.deployed;
  };
  insert = λ p now name user r s v. insert-Frozen c p now name user r s v;
  activate = λ fails now id user s v. activate-Frozen c fails now id user s v;
}

any_row-false {ℓ} :
    {A : Type ℓ} (p : A → Bool) (t : List A) → All (λ x. p x ≡ false) t → any_row p t ≡ false
unfolding any_row
any_row-false p [] h = refl
any_row-false p (x ∷ xs) h = rw (h.0, any_row-false p xs h.1) refl

Memᴰ-update :
    {c : Config} (p : Config → Bool) (f : Config → Config) (t : List Config)
    → p c ≡ false
    → Memᴰ c t
    → Memᴰ c (update_where p f t)
unfolding update_where
Memᴰ-update p f [] e m = elim m [ ]
Memᴰ-update {c} p f (x ∷ xs) e (Memᴰ.head h) =
    Memᴰ.head (h ∙ sym (if_false (p x) (f x) x (ap p (sym h) ∙ e)))
Memᴰ-update p f (x ∷ xs) e (Memᴰ.tail m) = Memᴰ.tail (Memᴰ-update p f xs e m)

-- The check of the statement finds no open suite of the configuration.
not_open :
    (c : Config) (s : Store)
    → Frozen c s
    → any_row (open_suite c.config_suite_id) s.config_suites ≡ false
not_open c s v =
    any_row-false (open_suite c.config_suite_id) s.config_suites
      (All-map _ _ s.config_suites closed v.deployed)
  where
    closed :
        (t : ConfigSuite)
        → ((t.id == v.suite) ≡ false) ⊎ (is_some t.deployed_at ≡ true)
        → open_suite c.config_suite_id t ≡ false
    closed t (inl e) = rw v.owner (ground arith)
    closed t (inr e) = rw (v.owner, e) (ground arith)

and_last : (a b c d : Bool) → d ≡ false → a && (b && (c && d)) ≡ false
and_last a b c d h = ground arith

update_refused :
    (c : Config) (id : ℕ) (user : String) (s : Store) → Frozen c s → can_update id user s c ≡ false
unfolding can_update
update_refused c id user s v =
    and_last (c.id == id) (any_row (λ a. a.id == c.actor_id) s.actors)
      (str_eq c.created_by user
        || any_row (λ t. open_suite c.config_suite_id t && reviews user s t) s.config_suites)
      (any_row (open_suite c.config_suite_id) s.config_suites) (not_open c s v)

pub write-Frozen :
    (c : Config) (fails : Bool) (now id : ℕ) (user : String) (content : Option Bytes)
    (version : Option (List ℤ)) (s : Store)
    → Frozen c s
    → Frozen c (config_update_inactive_content_by_creator fails now id user content version s).0
unfolding config_update_inactive_content_by_creator
write-Frozen c fails now id user content version s v =
    if_rule (λ (q : Store × Fetched Config). Frozen c q.0) fails v
      (record {
        stored =
            Memᴰ-update (can_update id user s) (set_content now user content version) s.configs
              (update_refused c id user s v) v.stored;
        suite = v.suite;
        owner = v.owner;
        given = v.given;
        deployed = v.deployed;
      })
