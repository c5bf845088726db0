-- ===== src/Util/Version/RoundTrip.antt =====
-- A version that is written is read back, and only versions of three or four parts are read.
use maos_core.Common.{
  ◌++◌, ◌==◌, ltb, true, false, List, [], ◌∷◌, ℕ, suc, some, length, ◌≡◌, refl, ap, ◌∙◌, ◌≤◌, arith,
}
use maos_core.Common.Int.{ℤ, pos, negsuc}
use maos_core.Common.Decimal.{Text, format_nat, format_int, parse_int}
use maos_core.Common.Decimal.RoundTrip.{
  InRange, parse_int-format_int, AllDigits, format_nat-AllDigits, parse_int-InRange,
}
use mathlib.Core.List.{append-nil}
use maos_core.Util.Version.{
  write_from, serialize_actor_version, push, split, parse_parts, parse_version,
  deserialize_actor_version,
}

abbrev pub AllInRange : List ℤ → Type 0
AllInRange [] = Unit {0}
AllInRange (v ∷ vs) = InRange 32 v × AllInRange vs

abbrev NoDot : Text → Type 0
NoDot [] = Unit {0}
NoDot (c ∷ cs) = ((c == b'.') ≡ false) × NoDot cs

NoDot-AllDigits : (t : Text) → AllDigits t → NoDot t
NoDot-AllDigits [] h = tt
NoDot-AllDigits (c ∷ cs) h = (ground arith, NoDot-AllDigits cs h.1)

NoDot-format_int : (v : ℤ) → NoDot (format_int v)
unfolding format_int
NoDot-format_int (pos n) = NoDot-AllDigits (format_nat n) (format_nat-AllDigits n)
NoDot-format_int (negsuc n) =
    (refl, NoDot-AllDigits (format_nat (suc n)) (format_nat-AllDigits (suc n)))

split-NoDot : (t : Text) → NoDot t → split b'.' t ≡ t ∷ []
unfolding split push
split-NoDot [] h = refl
split-NoDot (c ∷ cs) h = rw (h.0, split-NoDot cs h.1)

split-append : (t rest : Text) → NoDot t → split b'.' (t ++ b'.' ∷ rest) ≡ t ∷ split b'.' rest
unfolding split push
split-append [] rest h = refl
split-append (c ∷ cs) rest h = rw (h.0, split-append cs rest h.1)

abbrev texts : List ℤ → List Text
texts [] = []
texts (v ∷ vs) = format_int v ∷ texts vs

zero-ltb-suc : (i : ℕ) → ltb 0 (suc i) ≡ true
zero-ltb-suc i = ground arith

split-write_from :
    (v : ℤ) (vs : List ℤ) (i : ℕ)
    → split b'.' (format_int v ++ write_from (suc i) vs) ≡ format_int v ∷ texts vs
unfolding write_from
split-write_from v [] i = rw append-nil (split-NoDot (format_int v) (NoDot-format_int v))
split-write_from v (w ∷ ws) i = rw (zero-ltb-suc i) (
    split-append (format_int v) (format_int w ++ write_from (suc (suc i)) ws) (NoDot-format_int v)
    ∙ ap (◌∷◌ (format_int v)) (split-write_from w ws (suc i)))

parse_parts-texts : (vs : List ℤ) → AllInRange vs → parse_parts (texts vs) ≡ some vs
unfolding parse_parts
parse_parts-texts [] h = refl
parse_parts-texts (v ∷ vs) h =
    rw (parse_int-format_int 32 v h.0, parse_parts, parse_parts-texts vs h.1) refl

length-texts : (vs : List ℤ) → length (texts vs) ≡ length vs
length-texts [] = refl
length-texts (v ∷ vs) = ap suc (length-texts vs)

few_parts :
    (vs : List ℤ)
    → 3 ≤ length vs
    → length vs ≤ 4
    → AllInRange vs
    → parse_version (texts vs) ≡ some vs
unfolding parse_version
few_parts vs h k r = ground (arith, length-texts vs, parse_parts-texts vs r)

-- A version of three or four 32-bit integers is read back from its text.
pub deserialize-serialize :
    (vs : List ℤ)
    → 3 ≤ length vs
    → length vs ≤ 4
    → AllInRange vs
    → deserialize_actor_version (serialize_actor_version vs) ≡ some vs
unfolding deserialize_actor_version serialize_actor_version write_from parse_version
deserialize-serialize [] h k r = absurd (omega arith)
deserialize-serialize (v ∷ vs) h k r =
    ap parse_version (split-write_from v vs 0) ∙ few_parts (v ∷ vs) h k r

parse_parts-AllInRange :
    (parts : List Text) (vs : List ℤ)
    → parse_parts parts ≡ some vs
    → AllInRange vs × (length vs ≡ length parts)
unfolding parse_parts
parse_parts-AllInRange [] [] h = (tt, refl)
parse_parts-AllInRange [] (v ∷ vs) h = cc
parse_parts-AllInRange (p ∷ ps) [] h = absurd (ground arith)
parse_parts-AllInRange (p ∷ ps) (v ∷ vs) h =
    let (e, f) = parts_of in
    let (r, l) = parse_parts-AllInRange ps vs f in
    ((parse_int-InRange 32 p v (omega arith) e, r), ap suc l)
  where
    parts_of : (parse_int 32 p ≡ some v) × (parse_parts ps ≡ some vs)
    parts_of = ground arith

-- Whatever text is given, a version that is read has three or four parts, each of 32 bits.
pub deserialize_bounds :
    (t : Text) (vs : List ℤ)
    → deserialize_actor_version (some t) ≡ some vs
    → (3 ≤ length vs) × (length vs ≤ 4) × AllInRange vs
unfolding deserialize_actor_version parse_version
deserialize_bounds t vs h =
    let (r, l) = parse_parts-AllInRange (split b'.' t) vs (ground arith) in
    (ground arith, ground arith, r)
