-- ===== src/Cluster/Examples.antt =====
-- A cluster that is a list of objects, which keeps the laws, and an update of it.
use maos_core.Cluster.Deletion.{update_deployment_set_has}
use maos_core.Cluster.Convergence.{wanted}
use maos_core.Common.Int.{pos}
use maos_core.Cluster.Progress.{same_kind_eq}
use maos_core.Cluster.Laws.{written, Laws, carries}
use maos_core.Common.Table.{delete_where, select_where}
use maos_core.Admin.Registry.{any_row}
use maos_core.Cluster.Objects.{account_body, Object, same_kind}
use maos_core.Cluster.{
  update_deployment_set, deployments, DeploymentParams, deleted, absent, present, Kind,
  delete_where, Listed, Api,
}
use maos_core.Common.{
  ◌≡◌, ◌≢◌, refl, sym, arith, Bool, true, false, not, ◌&&◌, ◌||◌, List, [], ◌∷◌, Option, none, some,
  String, str_eq, str_eq_iff, Bool-cases, if_rule, if_cases, if◌then◌else◌, inl, inr, ◌∙◌, ap,
  subst, map,
}

abbrev Objects : Type 0
Objects = List Object

unfoldable keyed : Kind → String → Object → Bool
unfolding same_kind
keyed k n o = same_kind o.kind k && str_eq o.name n

unfoldable shows : Kind → String → Objects → Bool
unfolding any_row keyed carries
shows k n s = any_row (λ o. keyed k n o && carries o.labels) s

abbrev listed_as : Object → Listed
listed_as o = record { name = o.name; account = o.name }

abbrev put : Object → Objects → Objects
put o s = o ∷ delete_where (keyed o.kind o.name) s

abbrev cluster : Api Objects
cluster = record {
  list = λ k s. some (map listed_as (select_where (λ o. same_kind o.kind k && carries o.labels) s));
  get = λ k n s. if any_row (keyed k n) s then present else absent;
  create = λ o s. if any_row (keyed o.kind o.name) s then (s, false) else (put o s, true);
  update = λ o s. if any_row (keyed o.kind o.name) s then (put o s, true) else (s, false);
  delete = λ k n s. (delete_where (keyed k n) s, deleted);
}

listed_law :
    (k : Kind) (n : String) (s : Objects)
    → any_row
        (λ x. str_eq x.name n)
        (map listed_as (select_where (λ o. same_kind o.kind k && carries o.labels) s))
      ≡ shows k n s
unfolding shows any_row select_where keyed
listed_law k n [] = refl
listed_law k n (o ∷ s) = elim (Bool-cases (same_kind o.kind k && carries o.labels)) [
  | inl e ↦ rw (e, listed_law k n s) (ground arith)
  | inr e ↦ rw (e, listed_law k n s) (ground arith)
]

-- An object that two keys fit has one key.
keyed_once :
    (j k : Kind) (m n : String) (o : Object)
    → keyed j m o ≡ true
    → keyed k n o ≡ same_kind j k && str_eq m n
unfolding keyed
keyed_once j k m n o h =
    subst (λ x. same_kind x k && str_eq o.name n ≡ same_kind j k && str_eq m n)
      (sym (same_kind_eq o.kind j (ground arith)))
      (subst (λ x. same_kind j k && str_eq x n ≡ same_kind j k && str_eq m n)
        (sym ((str_eq_iff o.name m).0 (ground arith))) refl)

other_key :
    (j k : Kind) (m n : String) (o : Object)
    → keyed j m o ≡ false
    → same_kind j k && str_eq m n ≡ true
    → keyed k n o ≡ false
other_key j k m n o h g =
    subst (λ x. keyed x n o ≡ false) (same_kind_eq j k (ground arith))
      (subst (λ x. keyed j x o ≡ false) ((str_eq_iff m n).0 (ground arith)) h)

removed_law :
    (j k : Kind) (m n : String) (s : Objects)
    → shows k n (delete_where (keyed j m) s) ≡ not (same_kind j k && str_eq m n) && shows k n s
unfolding shows any_row delete_where
removed_law j k m n [] = ground arith
removed_law j k m n (o ∷ s) = elim (Bool-cases (keyed j m o)) [
  | inl e ↦ rw (e, keyed_once j k m n o e, removed_law j k m n s) (ground arith)
  | inr e ↦
      rw (e, removed_law j k m n s)
        (elim (Bool-cases (same_kind j k && str_eq m n)) [
          | inl g ↦ rw (g, other_key j k m n o e g) (ground arith)
          | inr g ↦ rw g (ground arith)
        ])
]

put_law :
    (o : Object) (k : Kind) (n : String) (s : Objects)
    → shows k n (put o s) ≡ written o k n (shows k n s)
unfolding shows any_row
put_law o k n s = elim (Bool-cases (same_kind o.kind k && str_eq o.name n)) [
  | inl e ↦ rw (e, removed_law o.kind k o.name n s) (rw e (ground arith))
  | inr e ↦ rw (e, removed_law o.kind k o.name n s) (rw e refl)
]

same_some : (a b : List Listed) → some a ≡ some b → a ≡ b
same_some a b h = cc

cluster-Laws : Laws cluster shows
cluster-Laws = record {
  listed = λ k s l h n.
      subst (λ (x : List Listed). any_row (λ (y : Listed). str_eq y.name n) x ≡ shows k n s)
        (same_some _ l h) (listed_law k n s);
  created = λ o s k n.
      if_cases (λ (q : Objects × Bool). q.1 ≡ true → shows k n q.0 ≡ written o k n (shows k n s))
        (any_row (keyed o.kind o.name) s) (s, false) (put o s, true) (λ e h. absurd cc)
        (λ e h. put_law o k n s);
  updated = λ o s k n.
      if_cases (λ (q : Objects × Bool). q.1 ≡ true → shows k n q.0 ≡ written o k n (shows k n s))
        (any_row (keyed o.kind o.name) s) (put o s, true) (s, false) (λ e h. put_law o k n s)
        (λ e h. absurd cc);
  removed = λ j m s k n h. removed_law j k m n s;
}

abbrev worker : DeploymentParams
worker = record {
  name = "maos-worker";
  replicas = pos 1;
  labels = ("app", "worker") ∷ [];
  image = "worker:1";
  image_pull_secrets = "";
  launch_command = [];
  env_vars = [];
  api_key = [];
  memory_request = "100Mi";
  memory_limit = "100Mi";
  cpu_request = "";
  cpu_limit = "";
  has_service = true;
  service_ports = pos 80 ∷ [];
  service_name = "";
  has_ingress = true;
  ingress_host = "worker.example.com";
  body_limit = "11m";
}

-- The deployment of an actor that the set no longer has.
abbrev old : Object
old = record {
  kind = deployments;
  name = "maos-old";
  labels = ("created-by", "maos") ∷ [];
  body = account_body;
}

update_deployment_set_has_example :
    shows deployments "maos-old" (update_deployment_set cluster [] (worker ∷ []) (old ∷ [])).0
    ≡ wanted (worker ∷ []) deployments "maos-old"
unfolding update_deployment_set maos_core.Common.Table.find_where select_where same_kind carries
    keyed maos_core.Cluster.Objects.service_account delete_where
    maos_core.Cluster.Objects.api_key_secret maos_core.Cluster.Objects.deployment_struct
    maos_core.Cluster.Objects.service_struct maos_core.Cluster.Objects.ingress_struct
update_deployment_set_has_example =
    update_deployment_set_has cluster shows cluster-Laws (λ k n s e. absurd cc) [] (worker ∷ [])
      (old ∷ []) refl deployments "maos-old" refl
