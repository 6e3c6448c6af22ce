-- ===== src/JsTaint/Joins.antt =====
-- What Merge of internal/analysis/static/javascript/state.go joins.
use Prim.Native.String.{String}
use text.Mathlib.Text.{◌==◌ as str_eq}
use text.Mathlib.TextEquality.{eq_iff}
use scalpel_cli.Common.{
  ℕ, ◌≡◌, refl, sym, ap, ◌∙◌, subst, Bool, true, false, ◌&&◌, ◌||◌, List, [], ◌∷◌, Option, none,
  some, inl, inr, arith, Bool-cases, Option-cases, if◌then◌else◌,
}
use scalpel_cli.JsTaint.{
  TaintState, simple, object, Properties, no_properties, property, has_source, add_source,
  add_sources, is_nonempty, is_tainted, any_tainted, get_sources, property_sources, is_earlier,
  line_of, adds_source, merge_sources, merge_simple, lookup_property, set_property, merge,
  merge_properties,
}

has-add_source :
    (s o : String) (ss : List String)
    → has_source s (add_source o ss) ≡ (str_eq o s || has_source s ss)
unfolding has_source
has-add_source s o ss = elim (Bool-cases (has_source o ss)) [
  | inl h ↦ elim (Bool-cases (str_eq o s)) [
    | inl e ↦ rw (h, e) (subst (λ x. has_source x ss ≡ true) ((eq_iff o s).0 e) h)
    | inr e ↦ rw (h, e) refl
  ]
  | inr h ↦ rw (h) (ground arith)
]

has-add_sources :
    (s : String) (os ss : List String)
    → has_source s (add_sources os ss) ≡ (has_source s os || has_source s ss)
unfolding has_source add_sources
has-add_sources s [] ss = refl
has-add_sources s (o ∷ os) ss =
    has-add_sources s os (add_source o ss) ∙ rw (has-add_source s o ss) (ground arith)

-- What has no taint has no sources.
mutual
  unfolding is_tainted get_sources

  untainted_sources : (t : TaintState) → is_tainted t ≡ false → get_sources t ≡ []
  untainted_sources (simple [] line) h = refl
  untainted_sources (simple (s ∷ ss) line) h = absurd (ground (arith, h))
  untainted_sources (object ps true) h = absurd (ground (arith, h))
  untainted_sources (object ps false) h = untainted_properties ps [] h

  untainted_properties :
      (ps : Properties) (ss : List String) → any_tainted ps ≡ false → property_sources ps ss ≡ ss
  untainted_properties no_properties ss h = refl
  untainted_properties (property k t ps) ss h = elim (Bool-cases (is_tainted t)) [
    | inl e ↦ absurd (ground (arith, h, e))
    | inr e ↦ rw (e) (untainted_properties ps ss (ground (arith, h, e)))
  ]

-- The sources of one property, onto others.
abbrev own : TaintState → List String → List String
own t ss = if is_tainted t then add_sources (get_sources t) ss else ss

has-own :
    (s : String) (t : TaintState) (ss : List String)
    → has_source s (own t ss) ≡ (has_source s (get_sources t) || has_source s ss)
unfolding has_source
has-own s t ss = elim (Bool-cases (is_tainted t)) [
  | inl e ↦ rw (e) (has-add_sources s (get_sources t) ss)
  | inr e ↦ rw (e) (sym (ap (λ x. has_source s x || has_source s ss) (untainted_sources t e)))
]

abbrev holds : String → TaintState → Bool
holds s t = has_source s (get_sources t)

abbrev any_holds : String → Properties → Bool
any_holds s ps = has_source s (property_sources ps [])

has-property_sources :
    (s : String) (ps : Properties) (ss : List String)
    → has_source s (property_sources ps ss) ≡ (any_holds s ps || has_source s ss)
unfolding property_sources has_source
has-property_sources s no_properties ss = refl
has-property_sources s (property k t ps) ss =
    has-property_sources s ps (own t ss)
    ∙ ground (arith, has-own s t ss, has-own s t [], has-property_sources s ps (own t []))

has-property :
    (s k : String) (t : TaintState) (ps : Properties)
    → any_holds s (property k t ps) ≡ (holds s t || any_holds s ps)
unfolding property_sources has_source
has-property s k t ps = has-property_sources s ps (own t []) ∙ ground (arith, has-own s t [])

has-object :
    (s : String) (ps : Properties) (b : Bool)
    → holds s (object ps b) ≡ (any_holds s ps || (b && str_eq "unknown_source" s))
unfolding get_sources has_source
has-object s ps true = has-property_sources s ps ("unknown_source" ∷ []) ∙ ground arith
has-object s ps false = has-property_sources s ps [] ∙ ground arith

adds_no_source :
    (s : String) (os ss : List String)
    → adds_source os ss ≡ false
    → (has_source s os || has_source s ss) ≡ has_source s ss
unfolding adds_source has_source
adds_no_source s [] ss h = refl
adds_no_source s (o ∷ os) ss h = elim (Bool-cases (has_source o ss)) [
  | inr g ↦ absurd (ground (arith, h, g))
  | inl g ↦ elim (Bool-cases (str_eq o s)) [
    | inl e ↦
        let there : has_source s ss ≡ true =
          subst (λ x. has_source x ss ≡ true) ((eq_iff o s).0 e) g in
        ground (arith, e, there)
    | inr e ↦ ground (arith, e, adds_no_source s os ss (ground (arith, h, g)))
  ]
]

empty_has : (s : String) (ss : List String) → is_nonempty ss ≡ false → has_source s ss ≡ false
unfolding has_source
empty_has s [] h = refl
empty_has s (t ∷ ss) h = absurd (ground (arith, h))

holds-merge_simple :
    (s : String) (ss : List String) (line : ℕ) (o : TaintState)
    → holds s (merge_simple ss line o) ≡ (has_source s ss || holds s o)
unfolding merge_simple merge_sources get_sources has_source
holds-merge_simple s ss line o = elim (Bool-cases (is_tainted o)) [
  | inr u ↦ ground (arith, u, ap (has_source s) (untainted_sources o u))
  | inl u ↦ elim (Bool-cases (is_nonempty ss)) [
    | inr e ↦ ground (arith, u, e, empty_has s ss e)
    | inl e ↦ elim (Bool-cases (is_earlier (line_of o) line || adds_source (get_sources o) ss)) [
      | inl a ↦ rw (u, e, a) (has-add_sources s (get_sources o) ss ∙ ground arith)
      | inr a ↦
          rw (u, e, a) (ground (arith, adds_no_source s (get_sources o) ss (ground (arith, a))))
    ]
  ]
]

-- What the map has under a key.
abbrev held : String → Option TaintState → Bool
held s none = false
held s (some t) = holds s t

any_holds-set_property :
    (s k : String) (w : TaintState) (ps : Properties) (x : Bool)
    → holds s w ≡ (held s (lookup_property k ps) || x)
    → any_holds s (set_property k w ps) ≡ (any_holds s ps || x)
unfolding set_property lookup_property property_sources has_source
any_holds-set_property s k w no_properties x h =
    has-property s k w no_properties ∙ ground (arith, h)
any_holds-set_property s k w (property j t ps) x h = elim (Bool-cases (str_eq j k)) [
  | inl e ↦ rw (e) (ground (arith, e, h, has-property s k w ps, has-property s j t ps))
  | inr e ↦
      let later : holds s w ≡ (held s (lookup_property k ps) || x) = ground (arith, e, h) in
      rw (e) (
        ground (
          arith,
          any_holds-set_property s k w ps x later,
          has-property s j t ps,
          has-property s j t (set_property k w ps),
        ))
]

object_joins :
    (s : String) (ps : Properties) (b : Bool) (qs : Properties) (c : Bool) (both : Properties)
    → any_holds s both ≡ (any_holds s ps || any_holds s qs)
    → holds s (if is_tainted (object qs c) then object both (b || c) else object ps b)
      ≡ (holds s (object ps b) || holds s (object qs c))
unfolding has_source
object_joins s ps b qs c both h = elim (Bool-cases (is_tainted (object qs c))) [
  | inl e ↦
      rw (e) (has-object s both (b || c) ∙ ground (arith, h, has-object s ps b, has-object s qs c))
  | inr e ↦ rw (e) (ground (arith, ap (has_source s) (untainted_sources (object qs c) e)))
]

mutual
  unfolding merge get_sources is_tainted property_sources has_source

  holds-merge : (s : String) (t o : TaintState) → holds s (merge t o) ≡ (holds s t || holds s o)
  holds-merge s (simple ss line) o = holds-merge_simple s ss line o
  holds-merge s (object ps b) (simple os line) = elim (Bool-cases (is_nonempty os)) [
    | inl e ↦ rw (e) (holds-merge_simple s os line (object ps b) ∙ ground arith)
    | inr e ↦ rw (e) (ground (arith, empty_has s os e))
  ]
  holds-merge s (object ps b) (object qs c) =
      object_joins s ps b qs c (merge_properties ps qs) (any_holds-merge_properties s ps qs)

  any_holds-merge_properties :
      (s : String) (ps qs : Properties)
      → any_holds s (merge_properties ps qs) ≡ (any_holds s ps || any_holds s qs)
  any_holds-merge_properties s ps no_properties = ground arith
  any_holds-merge_properties s ps (property k v qs) = elim (Option-cases (lookup_property k ps)) [
    | inl e ↦
        rw (e, merge_properties)
          (any_holds-merge_properties s (set_property k v ps) qs
            ∙ ground (
              arith,
              has-property s k v qs,
              any_holds-set_property s k v ps (holds s v) (rw (e) refl),
            ))
    | inr (t, e) ↦
        rw (e, merge_properties)
          (any_holds-merge_properties s (set_property k (merge t v) ps) qs
            ∙ ground (
              arith,
              has-property s k v qs,
              any_holds-set_property s k (merge t v) ps (holds s v) (rw (e) (holds-merge s t v)),
            ))
  ]

-- Merge is the join of its states, simple ones or objects, tainted or not: a source is one of the
-- merged state exactly if it is one of either.
pub merge_joins :
    (s : String) (t o : TaintState)
    → has_source s (get_sources (merge t o))
      ≡ (has_source s (get_sources t) || has_source s (get_sources o))
merge_joins s t o = holds-merge s t o
