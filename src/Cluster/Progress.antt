-- ===== src/Cluster/Progress.antt =====
-- How the loop over the deployment set goes on: one update or creation.
use maos_core.Cluster.Objects.{deployments, services, ingresses, secrets, accounts, Kind, same_kind}
use maos_core.Cluster.Laws.{Adds, shown, Laws}
use maos_core.Cluster.{
  update_or_create, ok, keep_name, Result, Api, ingresses, services, deployments, Kind, Listed,
}
use maos_core.Common.Table.{find_where, delete_where}
use maos_core.Cluster.Objects.{same_kind}
use maos_core.Admin.Registry.{any_row}
use maos_core.Common.{
  ◌≡◌, refl, sym, arith, Bool, true, false, not, ◌&&◌, ◌||◌, List, [], ◌∷◌, Option, none, some,
  String, str_eq, str_eq_iff, Bool-cases, inl, inr, ◌∙◌, ap, subst, map,
}

-- The name is among the obsolete ones.
abbrev pub holds_name : String → List String → Bool
holds_name n names = any_row (λ m. str_eq m n) names

apart : (a b c : String) → str_eq a b ≡ false → str_eq a c ≡ true → str_eq b c ≡ false
apart a b c h k = elim (Bool-cases (str_eq b c)) [
  | inl e ↦
      let f : str_eq a b ≡ true =
        (str_eq_iff a b).1 ((str_eq_iff a c).0 k ∙ sym ((str_eq_iff b c).0 e)) in
      absurd cc
  | inr e ↦ e
]

holds_name-delete :
    (name n : String) (t : List String)
    → holds_name n (delete_where (str_eq name) t) ≡ holds_name n t && not (str_eq name n)
unfolding any_row delete_where
holds_name-delete name n [] = refl
holds_name-delete name n (m ∷ t) = elim (Bool-cases (str_eq name m)) [
  | inl e ↦
      let f = (str_eq_iff name m).0 e in
      rw e (
        subst
          (λ x.
            holds_name n (delete_where (str_eq name) t)
            ≡ (str_eq x n || holds_name n t) && not (str_eq name n))
          f (rw (holds_name-delete name n t) (ground arith)))
  | inr e ↦
      rw (e, holds_name-delete name n t)
        (elim (Bool-cases (str_eq name n)) [
          | inl g ↦ rw (g, apart name m n e g) (ground arith)
          | inr g ↦ rw g (ground arith)
        ])
]

pub holds_name-map :
    (n : String) (t : List Listed)
    → holds_name n (map (λ l. l.name) t) ≡ any_row (λ l. str_eq l.name n) t
unfolding any_row
holds_name-map n [] = refl
holds_name-map n (l ∷ t) = ap (λ b. str_eq l.name n || b) (holds_name-map n t)

find_none_any :
    (name : String) (t : List Listed)
    → find_where (λ l. str_eq l.name name) t ≡ none
    → any_row (λ l. str_eq l.name name) t ≡ false
unfolding any_row find_where
find_none_any name [] h = refl
find_none_any name (l ∷ t) h = elim (Bool-cases (str_eq l.name name)) [
  | inl e ↦ absurd (let g = rw e at h in cc)
  | inr e ↦ rw e (find_none_any name t (rw e at h))
]

pub same_kind_eq : (j k : Kind) → same_kind j k ≡ true → j ≡ k
unfolding same_kind
same_kind_eq deployments deployments h = refl
same_kind_eq deployments services h = absurd cc
same_kind_eq deployments ingresses h = absurd cc
same_kind_eq deployments secrets h = absurd cc
same_kind_eq deployments accounts h = absurd cc
same_kind_eq services deployments h = absurd cc
same_kind_eq services services h = refl
same_kind_eq services ingresses h = absurd cc
same_kind_eq services secrets h = absurd cc
same_kind_eq services accounts h = absurd cc
same_kind_eq ingresses deployments h = absurd cc
same_kind_eq ingresses services h = absurd cc
same_kind_eq ingresses ingresses h = refl
same_kind_eq ingresses secrets h = absurd cc
same_kind_eq ingresses accounts h = absurd cc
same_kind_eq secrets deployments h = absurd cc
same_kind_eq secrets services h = absurd cc
same_kind_eq secrets ingresses h = absurd cc
same_kind_eq secrets secrets h = refl
same_kind_eq secrets accounts h = absurd cc
same_kind_eq accounts deployments h = absurd cc
same_kind_eq accounts services h = absurd cc
same_kind_eq accounts ingresses h = absurd cc
same_kind_eq accounts secrets h = absurd cc
same_kind_eq accounts accounts h = refl

both_true : (a b : Bool) → a && b ≡ true → (a ≡ true) × (b ≡ true)
both_true a b h = (ground arith, ground arith)

module _ {S : Type 0} (api : Api S) (has : Kind → String → S → Bool) (laws : Laws api has)
    (existing : Kind → List Listed) where
  abbrev pub is_listed : Kind → String → Bool
  is_listed k n = any_row (λ l. str_eq l.name n) (existing k)

  -- How far the loop has come: `w` says what the part of the set behind it asks for.
  pub record Progress (w : Kind → String → Bool) (work : S × (Kind → List String)) : Type 0 where
    pub now : (k : Kind) (n : String) → shown k ≡ true → has k n work.0 ≡ w k n || is_listed k n
    pub left : (k : Kind) (n : String) → holds_name n (work.1 k) ≡ is_listed k n && not (w k n)

  abbrev pub or_when : (Kind → String → Bool) → Bool → Kind → String → Kind → String → Bool
  or_when w b j m k n = w k n || (b && (same_kind j k && str_eq m n))

  Progress-now :
      (w : Kind → String → Bool) (j : Kind) (m : String) (s s' : S)
      (obsolete obsolete' : Kind → List String)
      → Progress w (s, obsolete)
      → Adds api has laws j m s s'
      → ((k : Kind) (n : String)
          → holds_name n (obsolete' k) ≡ is_listed k n && not (or_when w true j m k n))
      → Progress (or_when w true j m) (s', obsolete')
  Progress-now w j m s s' obsolete obsolete' p a l = record {
    now = λ k n e. a k n e ∙ rw (p.now k n e) (ground arith);
    left = l;
  }

  kept_left :
      (w : Kind → String → Bool) (j : Kind) (m : String) (s : S) (obsolete : Kind → List String)
      → Progress w (s, obsolete)
      → is_listed j m ≡ false
      → (k : Kind) (n : String)
      → holds_name n (obsolete k) ≡ is_listed k n && not (or_when w true j m k n)
  kept_left w j m s obsolete p h k n =
      p.left k n ∙ elim (Bool-cases (same_kind j k && str_eq m n)) [
        | inl e ↦ let g = unlisted (both_true (same_kind j k) (str_eq m n) e) in rw g refl
        | inr e ↦ rw e (ground arith)
      ]
    where
      unlisted : (same_kind j k ≡ true) × (str_eq m n ≡ true) → is_listed k n ≡ false
      unlisted (a, b) =
          subst (λ x. is_listed k x ≡ false) ((str_eq_iff m n).0 b)
            (subst (λ x. is_listed x m ≡ false) (same_kind_eq j k a) h)

  dropped_left :
      (w : Kind → String → Bool) (j : Kind) (m : String) (s : S) (obsolete : Kind → List String)
      → Progress w (s, obsolete)
      → (k : Kind) (n : String)
      → holds_name n (keep_name api j m obsolete k) ≡ is_listed k n && not (or_when w true j m k n)
  dropped_left w j m s obsolete p k n = elim (Bool-cases (same_kind j k)) [
    | inl e ↦ rw e (holds_name-delete m n (obsolete k) ∙ rw (p.left k n) (ground arith))
    | inr e ↦ rw e (p.left k n ∙ ground arith)
  ]

  pub update_or_create-Progress :
      (w : Kind → String → Bool) (j : Kind) (m : String) (upd : Listed → S → S × Result)
      (cre : S → S × Result) (o : Option Listed) (work : S × (Kind → List String))
      → (find_where (λ l. str_eq l.name m) (existing j) ≡ o)
      → ((l : Listed) (s : S) → (upd l s).1 ≡ ok → Adds api has laws j m s (upd l s).0)
      → ((s : S) → (cre s).1 ≡ ok → Adds api has laws j m s (cre s).0)
      → Progress w work
      → (update_or_create api j m upd cre o work).1 ≡ ok
      → Progress (or_when w true j m) (update_or_create api j m upd cre o work).0
  update_or_create-Progress w j m upd cre none (s, obsolete) f u c p h =
      Progress-now w j m s (cre s).0 obsolete obsolete p (c s h)
        (kept_left w j m s obsolete p (find_none_any m (existing j) f))
  update_or_create-Progress w j m upd cre (some l) (s, obsolete) f u c p h =
      Progress-now w j m s (upd l s).0 obsolete (keep_name api j m obsolete) p (u l s h)
        (dropped_left w j m s obsolete p)
