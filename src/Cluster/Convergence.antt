-- ===== src/Cluster/Convergence.antt =====
-- The loop over the deployment set.
use mathlib.Core.List.{[]}
use maos_core.Common.Int.{ℤ}
use maos_core.Cluster.Progress.{update_or_create-Progress, is_listed, Progress, or_when}
use maos_core.Cluster.Laws.{
  create_deployment_object-Adds, update_deployment_object-Adds, after_ok, create-Adds, update-Adds,
  Adds, carries-set_label, carries, Laws,
}
use maos_core.Cluster.{
  create_deployment_object, update_deployment_object, update_or_create, Text,
  process_deployment_set, process_one, find_where, Result, ◌∷◌, ok, process_ingress,
  process_service, write_ingress, ingresses, ingress_struct, services, service_struct, Listed,
  str_eq, deployments, Bool, String, DeploymentParams, List, service_name_of, Kind, Api,
}
use maos_core.Cluster.Objects.{
  ingress_at, service_struct, ingress_struct, maos_labels, service_name_of, same_kind,
}
use maos_core.Admin.Registry.{any_row}
use maos_core.Common.{subst, arith, if_cases, sym, ap, ◌∙◌, ◌≡◌, refl, true, not, ◌&&◌, ◌||◌}

-- The objects that a deployment of the set asks for.
unfoldable pub wants : DeploymentParams → Kind → String → Bool
unfolding same_kind service_name_of
wants p k n =
    (same_kind deployments k && str_eq p.name n)
    || ((p.has_service && (same_kind services k && str_eq (service_name_of p) n))
        || (p.has_ingress && (same_kind ingresses k && str_eq p.name n)))

unfoldable pub wanted : List DeploymentParams → Kind → String → Bool
unfolding any_row wants
wanted set k n = any_row (λ p. wants p k n) set

module _ {S : Type 0} (api : Api S) (has : Kind → String → S → Bool) (laws : Laws api has)
    (existing : Kind → List Listed) where
  abbrev pub Work : Type 0
  Work = S × (Kind → List String)

  abbrev pub At : (Kind → String → Bool) → Work → Type 0
  At w work = Progress api has laws existing w work

  At-ext :
      (w v : Kind → String → Bool) (work : Work)
      → ((k : Kind) (n : String) → v k n ≡ w k n)
      → At w work
      → At v work
  At-ext w v work e p = record {
    now = λ k n h. p.now k n h ∙ ap (λ b. b || is_listed api has laws existing k n) (sym (e k n));
    left = λ k n. p.left k n ∙ ap (λ b. is_listed api has laws existing k n && not b) (sym (e k n));
  }

  abbrev with_kind : (Kind → String → Bool) → Bool → Kind → String → Kind → String → Bool
  with_kind w b j m = or_when api has laws existing w b j m

  service_carries : (params : DeploymentParams) → carries (service_struct params).labels ≡ true
  unfolding service_struct maos_labels
  service_carries params = carries-set_label params.labels

  write_ingress-Adds :
      (params : DeploymentParams) (ports : List ℤ) (s : S)
      → (write_ingress api api.update (ingress_at params ports) s).1 ≡ ok
      → Adds api has laws ingresses params.name s
          (write_ingress api api.update (ingress_at params ports) s).0
  unfolding maos_labels
  write_ingress-Adds params [] s h = absurd cc
  write_ingress-Adds params (port ∷ ports) s h =
      update-Adds api has laws _ s (carries-set_label params.labels) h

  create_ingress-Adds :
      (params : DeploymentParams) (ports : List ℤ) (s : S)
      → (write_ingress api api.create (ingress_at params ports) s).1 ≡ ok
      → Adds api has laws ingresses params.name s
          (write_ingress api api.create (ingress_at params ports) s).0
  unfolding maos_labels
  create_ingress-Adds params [] s h = absurd cc
  create_ingress-Adds params (port ∷ ports) s h =
      create-Adds api has laws _ s (carries-set_label params.labels) h

  service-At :
      (w : Kind → String → Bool) (params : DeploymentParams) (work : Work)
      → At w work
      → (process_service api existing params work).1 ≡ ok
      → At
          (with_kind w params.has_service services (service_name_of params))
          (process_service api existing params work).0
  unfolding service_struct
  service-At w params work p =
      if_cases
        (λ (q : Work × Result).
          q.1 ≡ ok → At (with_kind w params.has_service services (service_name_of params)) q.0)
        params.has_service _ _
        (λ b h. rw b (
          update_or_create-Progress api has laws existing w services (service_name_of params) _ _
            (find_where (λ l. str_eq l.name (service_name_of params)) (existing services)) work refl
            (λ l s e. update-Adds api has laws (service_struct params) s (service_carries params) e)
            (λ s e. create-Adds api has laws (service_struct params) s (service_carries params) e) p
            h))
        (λ b h. rw b (At-ext w _ work (λ k n. ground arith) p))

  ingress-At :
      (w : Kind → String → Bool) (params : DeploymentParams) (work : Work)
      → At w work
      → (process_ingress api existing params work).1 ≡ ok
      → At
          (with_kind w params.has_ingress ingresses params.name)
          (process_ingress api existing params work).0
  unfolding ingress_struct
  ingress-At w params work p =
      if_cases
        (λ (q : Work × Result).
          q.1 ≡ ok → At (with_kind w params.has_ingress ingresses params.name) q.0)
        params.has_ingress _ _
        (λ b h. rw b (
          update_or_create-Progress api has laws existing w ingresses params.name _ _
            (find_where (λ l. str_eq l.name params.name) (existing ingresses)) work refl
            (λ l s e. write_ingress-Adds params params.service_ports s e)
            (λ s e. create_ingress-Adds params params.service_ports s e) p h))
        (λ b h. rw b (At-ext w _ work (λ k n. ground arith) p))

  one-At :
      (w : Kind → String → Bool) (created_at : Text) (params : DeploymentParams) (work : Work)
      → At w work
      → (process_one api created_at existing params work).1 ≡ ok
      → At (λ k n. w k n || wants params k n) (process_one api created_at existing params work).0
  unfolding process_one wants
  one-At w created_at params work p h =
      let (a, b, e) =
        after_ok
          (update_or_create api deployments params.name
            (λ l s. update_deployment_object api created_at l params s)
            (λ s. create_deployment_object api created_at params s)
            (find_where (λ l. str_eq l.name params.name) (existing deployments)) work)
          _ h in
      let p1 =
        update_or_create-Progress api has laws existing w deployments params.name _ _
          (find_where (λ l. str_eq l.name params.name) (existing deployments)) work refl
          (λ l s e. update_deployment_object-Adds api has laws created_at l params s e)
          (λ s e. create_deployment_object-Adds api has laws created_at params s e) p a in
      let (c, d, f) = after_ok (process_service api existing params _) _ b in
      let p2 = service-At _ params _ p1 c in
      let p3 = ingress-At _ params _ p2 d in
      subst (At (λ k n. w k n || wants params k n)) (sym (e ∙ f))
        (At-ext _ _ _ (λ k n. ground arith) p3)

  pub set-At :
      (w : Kind → String → Bool) (created_at : Text) (set : List DeploymentParams) (work : Work)
      → At w work
      → (process_deployment_set api created_at existing set work).1 ≡ ok
      → At
          (λ k n. w k n || wanted set k n)
          (process_deployment_set api created_at existing set work).0
  unfolding process_deployment_set wanted any_row
  set-At w created_at [] work p h = At-ext w _ work (λ k n. ground arith) p
  set-At w created_at (params ∷ set) work p h =
      let (a, b, e) = after_ok (process_one api created_at existing params work) _ h in
      subst (At (λ k n. w k n || (wants params k n || wanted set k n))) (sym e) (
        At-ext _ _ _ (λ k n. ground arith)
          (set-At (λ k n. w k n || wants params k n) created_at set _
            (one-At w created_at params work p a) b))
