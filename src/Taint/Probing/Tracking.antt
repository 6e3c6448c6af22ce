-- ===== src/Taint/Probing/Tracking.antt =====
-- That the probes of internal/analysis/active/taint/taint_analyzer.go that are sent are registered.
use Prim.Native.String.{String, count}
use text.Mathlib.Text.{◌==◌ as str_eq}
use text.Mathlib.TextEquality.{eq_iff}
use text.Mathlib.TextPositions.{eq_refl}
use text.Mathlib.TextLemmas.{append_inj, length-append as count-append}
use scalpel_cli.Common.{
  ℕ, suc, ◌<◌, ◌≤◌, ◌≡◌, ◌≢◌, refl, sym, ap, ◌∙◌, subst, List, [], ◌∷◌, Option, none, some, ◌⊎◌,
  inl, inr, All, arith, length, Bool-cases,
}
use scalpel_cli.Common.Dict.{Dict, lookup, insert, lookup-insert}
use scalpel_cli.Taint.Types.{ProbeDefinition, ActiveProbe}
use scalpel_cli.Taint.Correlation.{register_probe}
use scalpel_cli.Taint.Probing.{
  Web, Naming, Probing, probe_of, generate_canary, prepare_payload, inject_as, inject, ◌++ₛ◌,
}
use scalpel_cli.Taint.Probing.Urls.{plus_one, set_value, query_probes}

-- An active probe with this source and key and this payload stands under its canary.
abbrev pub Tracked : Dict ActiveProbe → (source key payload : String) → Type 0
Tracked probes source key payload =
    (p : ActiveProbe) × (lookup p.canary probes ≡ some p)
    × (p.source ≡ source)
    × (p.key ≡ key)
    × (p.value ≡ payload)

-- The identifiers to come have eight characters and differ, and no probe has one of them yet.
abbrev pub FreshIds : Dict ActiveProbe → List String → Type 0
FreshIds probes [] = Unit
FreshIds probes (id ∷ ids) =
    (count id ≡ 8)
    × ((s : String) → lookup (s ++ₛ id) probes ≡ none)
    × All (λ j. id ≢ j) ids
    × FreshIds probes ids

append_end : (s t i j : String) → s ++ₛ i ≡ t ++ₛ j → count i ≡ 8 → count j ≡ 8 → i ≡ j
append_end s t i j e h k =
    (append_inj {s₁ = s} {s₂ = t} {t₁ = i} {t₂ = j} e
      (omega (arith, count-append s i, count-append t j, ap count e, h, k))).1

lookup-insert_other :
    (c k : String) (p : ActiveProbe) (d : Dict ActiveProbe)
    → c ≢ k
    → lookup k (insert c p d) ≡ lookup k d
lookup-insert_other c k p d n =
    lookup-insert c k p d
    ∙ elim (Bool-cases (str_eq c k)) [ inl e ↦ absurd (n ((eq_iff c k).0 e)) | inr e ↦ rw (e) refl ]

insert-FreshIds :
    (probes : Dict ActiveProbe) (s id : String) (p : ActiveProbe) (ids : List String)
    → count id ≡ 8
    → All (λ j. id ≢ j) ids
    → FreshIds probes ids
    → FreshIds (insert (s ++ₛ id) p probes) ids
insert-FreshIds probes s id p [] h differ fresh = tt
insert-FreshIds probes s id p (j ∷ js) h differ fresh = (
  fresh.0,
  (λ t.
      lookup-insert_other (s ++ₛ id) (t ++ₛ j) p probes
        (λ e. differ.0 (append_end s t id j e h fresh.0))
      ∙ fresh.1 t),
  fresh.2,
  insert-FreshIds probes s id p js h differ.1 fresh.3,
)

insert-Tracked :
    (probes : Dict ActiveProbe) (c : String) (q : ActiveProbe) (source key payload : String)
    → lookup c probes ≡ none
    → Tracked probes source key payload
    → Tracked (insert c q probes) source key payload
insert-Tracked probes c q source key payload gone (p, there, x, y, z) = (
  p,
  lookup-insert_other c p.canary q probes
        (λ e. absurd (ground (arith, sym gone ∙ ap (λ i. lookup i probes) e ∙ there)))
      ∙ there,
  x,
  y,
  z,
)

-- What an injection does to the probes: those that are tracked stay so, the identifiers to come stay
-- fresh, and the payload is that of a probe.
record Kept (source key : String) (payload : Option String) (before : Dict ActiveProbe)
    (q : Probing) (ids : List String) : Type 0 where
  still : (s k v : String) → Tracked before s k v → Tracked q.active_probes s k v
  fresh_still : FreshIds q.active_probes q.ids
  left : q.ids ≡ ids
  tracked : (v : String) → payload ≡ some v → Tracked q.active_probes source key v

inject_as-Kept :
    (s id payload source key : String) (d : ProbeDefinition) (p : Probing)
    → FreshIds p.active_probes (id ∷ p.ids)
    → Kept source key
        (inject_as (s ++ₛ id) payload source key d p).0
        p.active_probes
        (inject_as (s ++ₛ id) payload source key d p).1
        p.ids
unfolding register_probe generate_canary
inject_as-Kept s id payload source key d p fresh = elim (Bool-cases (str_eq payload "")) [
  | inl e ↦ rw (e) (record {
    still = λ s k v t. t;
    fresh_still = fresh.3;
    left = refl;
    tracked = λ v h. absurd (ground (arith, h));
  })
  | inr e ↦ rw (e) (record {
    still = λ t k v.
        insert-Tracked p.active_probes (s ++ₛ id) (probe_of (s ++ₛ id) payload source key d p.clock)
          t k v (fresh.1 s);
    fresh_still =
        insert-FreshIds p.active_probes s id (probe_of (s ++ₛ id) payload source key d p.clock)
          p.ids fresh.0 fresh.2 fresh.3;
    left = refl;
    tracked = λ v h. (
      probe_of (s ++ₛ id) payload source key d p.clock,
      lookup-insert (s ++ₛ id) (s ++ₛ id) (probe_of (s ++ₛ id) payload source key d p.clock)
            p.active_probes
          ∙ rw (eq_refl (s ++ₛ id)) refl,
      refl,
      refl,
      ground (arith, h),
    );
  })
]

inject-Kept :
    (w : Web) (n : Naming) (prefix source key : String) (d : ProbeDefinition) (p : Probing)
    (id : String) (ids : List String)
    → p.ids ≡ id ∷ ids
    → FreshIds p.active_probes (id ∷ ids)
    → Kept source key
        (inject w n prefix source key d p).0
        p.active_probes
        (inject w n prefix source key d p).1
        ids
unfolding inject generate_canary
inject-Kept w n prefix source key d p id ids e fresh =
    subst
      (λ is.
        let q = record p { ids = is } in
        Kept source key (inject w n prefix source key d q).0 p.active_probes
          (inject w n prefix source key d q).1 ids)
      (sym e)
      (inject_as-Kept ("SCALPEL_" ++ₛ prefix ++ₛ "_" ++ₛ w.upper d.type ++ₛ "_") id
        (prepare_payload n d (generate_canary w prefix d.type id)) source key d
        (record p { ids = ids }) fresh)

-- Each parameter of the query is one that it had, or has the
-- payload of a probe that stands under its canary.
abbrev pub SentAs : (before after : Dict (List String)) → Probing → String → Type 0
SentAs before after q name =
    (lookup name after ≡ lookup name before)
    ⊎ ((payload : String) × (lookup name after ≡ some (payload ∷ []))
        × Tracked q.active_probes "URL_PARAM" name payload)

-- What the loop over the probes leaves.
record QuerySent (before after : Dict (List String)) (p q : Probing) : Type 0 where
  still : (s k v : String) → Tracked p.active_probes s k v → Tracked q.active_probes s k v
  sent : (name : String) → SentAs before after q name

lookup-set_value :
    (name key : String) (payload : Option String) (q : Dict (List String))
    → (lookup key (set_value name payload q) ≡ lookup key q)
      ⊎ ((v : String) × (payload ≡ some v)
          × (name ≡ key)
          × (lookup key (set_value name payload q) ≡ some (v ∷ [])))
lookup-set_value name key none q = inl refl
lookup-set_value name key (some v) q = elim (Bool-cases (str_eq name key)) [
  | inl e ↦ inr (v, refl, (eq_iff name key).0 e, lookup-insert name key (v ∷ []) q ∙ rw (e) refl)
  | inr e ↦ inl (lookup-insert name key (v ∷ []) q ∙ rw (e) refl)
]

sent_before :
    (name key : String) (payload : Option String) (q after : Dict (List String)) (u : Probing)
    → SentAs (set_value name payload q) after u key
    → ((v : String) → payload ≡ some v → Tracked u.active_probes "URL_PARAM" name v)
    → SentAs q after u key
sent_before name key payload q after u (inr found) tracked = inr found
sent_before name key payload q after u (inl same) tracked =
    elim (lookup-set_value name key payload q) [
      | inl e ↦ inl (same ∙ e)
      | inr (v, h, e, there) ↦
          inr
            (v, same ∙ there, subst (λ x. Tracked u.active_probes "URL_PARAM" x v) e (tracked v h))
    ]

nonempty_cases :
    (ids : List String) → 0 < length ids → (id : String) × (rest : List String) × (ids ≡ id ∷ rest)
nonempty_cases [] h = absurd (omega arith)
nonempty_cases (id ∷ rest) h = (id, rest, refl)

-- The loop.
query_probes-QuerySent :
    (w : Web) (n : Naming) (i : ℕ) (ds : List ProbeDefinition) (k : ℕ) (q : Dict (List String))
    (p : Probing)
    → length ds ≤ length p.ids
    → FreshIds p.active_probes p.ids
    → QuerySent q (query_probes w n i ds k q p).1 p (query_probes w n i ds k q p).2
unfolding query_probes
query_probes-QuerySent w n i [] k q p few fresh = record {
  still = λ s k v t. t;
  sent = λ name. inl refl;
}
query_probes-QuerySent w n i (d ∷ ds) k q p few fresh =
    let (id, rest, e) = nonempty_cases p.ids (omega (arith, few)) in
    let name = "sc_test_" ++ₛ w.decimal i in
    let step =
      inject-Kept w n "Q" "URL_PARAM" name d p id rest e
        (subst (λ is. FreshIds p.active_probes is) e fresh) in
    let next = (inject w n "Q" "URL_PARAM" name d p).1 in
    let payload = (inject w n "Q" "URL_PARAM" name d p).0 in
    let on =
      query_probes-QuerySent w n (suc i) ds (plus_one payload k) (set_value name payload q) next
        (ground (arith, few, ap length e, ap length step.left)) step.fresh_still in
    record {
      still = λ s k v t. on.still s k v (step.still s k v t);
      sent = λ key.
          sent_before name key payload q
            (query_probes w n (suc i) ds (plus_one payload k) (set_value name payload q) next).1
            (query_probes w n (suc i) ds (plus_one payload k) (set_value name payload q) next).2
            (on.sent key) (λ v h. on.still "URL_PARAM" name v (step.tracked v h));
    }

-- Where there are identifiers for the probes, of eight characters, that differ and that no probe
-- has, every parameter of the query that probeURLSources builds is as it was in the target or
-- carries the payload of an active probe registered for it.
pub query_tracked :
    (w : Web) (n : Naming) (ds : List ProbeDefinition) (p : Probing)
    → length ds ≤ length p.ids
    → FreshIds p.active_probes p.ids
    → (name : String)
    → SentAs w.query
        (query_probes w n 0 ds 0 w.query p).1
        (query_probes w n 0 ds 0 w.query p).2
        name
query_tracked w n ds p few fresh name =
    (query_probes-QuerySent w n 0 ds 0 w.query p few fresh).sent name
