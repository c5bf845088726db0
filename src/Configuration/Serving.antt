-- ===== src/Configuration/Serving.antt =====
-- Which configuration GetActorConfig serves.
use maos_core.Common.Membership.{All, All-map}
use maos_core.Models.{Config}
use maos_core.Configuration.{
  missing, parsed_or, Content, fetched, answer_retired, bad_request, deserialize_actor_version,
  is_eligible, answer_active, Answer, ℤ, Text, get_actor_config, config_actor_config, ContentCodec,
  Store, later_of, select_where, latest,
}
use maos_core.Common.Table.{select_where}
use mathlib.Core.List.{Memᴰ}
use maos_core.Common.{
  ltb, ◌≡◌, ◌≢◌, ◌≤◌, ◌⊎◌, refl, arith, Bool, true, false, List, [], ◌∷◌, ℕ, Option, none, some,
  Bool-cases, Option-cases, inl, inr,
}

-- The configuration is eligible, and no eligible one has a higher id.
abbrev pub IsBest : (Config → Bool) → List Config → Config → Type 0
IsBest p t c = Memᴰ c t × (p c ≡ true) × All (λ (d : Config). (p d ≡ false) ⊎ (d.id ≤ c.id)) t

abbrev NoneOf : (Config → Bool) → List Config → Type 0
NoneOf p t = All (λ (d : Config). p d ≡ false) t

abbrev Latest : (Config → Bool) → List Config → Option Config → Type 0
Latest p t none = NoneOf p t
Latest p t (some c) = IsBest p t c

later-Latest :
    (p : Config → Bool) (x : Config) (xs : List Config) (o : Option Config)
    → p x ≡ true
    → Latest p xs o
    → Latest p (x ∷ xs) (later_of x o)
later-Latest p x xs none e h =
    (Memᴰ.head refl, e, (inr (omega arith), All-map _ _ xs (λ d f. inl f) h))
later-Latest p x xs (some c) e (m, f, b) = elim (Bool-cases (ltb x.id c.id)) [
  | inl g ↦ rw g (Memᴰ.tail m, f, (inr (ground arith), b))
  | inr g ↦ rw g (
    Memᴰ.head refl,
    e,
    (
      inr (omega arith),
      All-map _ _ xs (λ d k. elim k [ inl n ↦ inl n | inr l ↦ inr (ground arith) ]) b,
    ),
  )
]

skip-Latest :
    (p : Config → Bool) (x : Config) (xs : List Config) (o : Option Config)
    → p x ≡ false
    → Latest p xs o
    → Latest p (x ∷ xs) o
skip-Latest p x xs none e h = (e, h)
skip-Latest p x xs (some c) e (m, f, b) = (Memᴰ.tail m, f, (inl e, b))

latest-Latest : (p : Config → Bool) (t : List Config) → Latest p t (latest (select_where p t))
unfolding latest select_where
latest-Latest p [] = tt
latest-Latest p (x ∷ xs) = elim (Bool-cases (p x)) [
  | inl e ↦ rw e (later-Latest p x xs (latest (select_where p xs)) e (latest-Latest p xs))
  | inr e ↦ rw e (skip-Latest p x xs (latest (select_where p xs)) e (latest-Latest p xs))
]

-- The best eligible configuration of an active suite, or else that of the retired ones.
abbrev pub Serves : Store → ℕ → Option (List ℤ) → Config → Type 0
Serves store actor_id version c =
    IsBest (is_eligible true store actor_id version) store.configs c
    ⊎ (NoneOf (is_eligible true store actor_id version) store.configs
        × IsBest (is_eligible false store actor_id version) store.configs c)

-- What is answered for a version.
abbrev pub Answered : ContentCodec → Store → ℕ → Option (List ℤ) → Answer Content → Type 0
Answered codec store actor_id version r =
    ((c : Config) × Serves store actor_id version c × (r ≡ parsed_or (codec.unmarshal c.content)))
    ⊎ (NoneOf (is_eligible true store actor_id version) store.configs
        × NoneOf (is_eligible false store actor_id version) store.configs
        × (r ≡ missing))

retired-Answered :
    (codec : ContentCodec) (store : Store) (actor_id : ℕ) (version : Option (List ℤ))
    (o : Option Config)
    → NoneOf (is_eligible true store actor_id version) store.configs
    → Latest (is_eligible false store actor_id version) store.configs o
    → Answered codec store actor_id version (answer_retired codec (fetched o))
retired-Answered codec store actor_id version none n h = inr (n, h, refl)
retired-Answered codec store actor_id version (some c) n h = inl (c, inr (n, h), refl)

active-Answered :
    (codec : ContentCodec) (store : Store) (actor_id : ℕ) (version : Option (List ℤ))
    (a r : Option Config)
    → Latest (is_eligible true store actor_id version) store.configs a
    → Latest (is_eligible false store actor_id version) store.configs r
    → Answered codec store actor_id version (answer_active codec (fetched a) (fetched r))
active-Answered codec store actor_id version none r h k =
    retired-Answered codec store actor_id version r h k
active-Answered codec store actor_id version (some c) r h k = inl (c, inl h, refl)

version-Answered :
    (codec : ContentCodec) (store : Store) (actor_id : ℕ) (version : Option (List ℤ))
    → Answered codec store actor_id version (
        answer_active codec
          (config_actor_config true false store actor_id version)
          (config_actor_config false false store actor_id version))
unfolding config_actor_config
version-Answered codec store actor_id version =
    active-Answered codec store actor_id version _ _
      (latest-Latest (is_eligible true store actor_id version) store.configs)
      (latest-Latest (is_eligible false store actor_id version) store.configs)

-- An actor whose version header cannot be read is refused. Else, where the queries do not fail, it is
-- served the content of the eligible configuration with the highest id among those of the active
-- suites, or, where none of them is eligible, among those of the retired suites; and where none is
-- eligible at all, 404. A configuration is eligible where it belongs to the actor and to a suite that
-- was deployed, and the version of the actor is at least its least version, if it has one.
pub get_actor_config_cases :
    (codec : ContentCodec) (store : Store) (actor_id : ℕ) (header : Option Text)
    → let r = get_actor_config codec false false store (some actor_id) header in
      ((header ≢ none)
        × (deserialize_actor_version header ≡ none)
        × (r ≡ bad_request "Cannot parse actor version"))
      ⊎ Answered codec store actor_id (deserialize_actor_version header) r
unfolding get_actor_config
get_actor_config_cases codec store actor_id none =
    inr (version-Answered codec store actor_id (deserialize_actor_version none))
get_actor_config_cases codec store actor_id (some text) =
    elim (Option-cases (deserialize_actor_version (some text))) [
      | inl e ↦ inl ((λ f. cc), e, rw e refl)
      | inr (v, e) ↦ inr (rw e (version-Answered codec store actor_id (some v)))
    ]
