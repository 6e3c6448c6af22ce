-- ===== src/Results/Providers/Listing.antt =====
-- What List of internal/results/providers/providers.go returns of a store that its operations made.
use Prim.Native.String.{String}
use text.Mathlib.Text.{◌==◌ as str_eq}
use text.Mathlib.TextEquality.{eq_iff}
use scalpel_cli.Common.{
  ℕ, suc, ◌≡◌, ◌≢◌, ◌∙◌, refl, subst, inl, inr, true, false, List, [], ◌∷◌, Option, none, some, All,
  arith, Bool-cases, Option-cases, if◌then◌else◌,
}
use scalpel_cli.Common.Dict.{lookup, insert, Distinct, insert-Distinct}
use scalpel_cli.Common.TextOrder.{text_lt, text_lt_asym}
use scalpel_cli.Results.Providers.{
  Provider, Store, is_invalid, add, update, get, remove_key, delete_provider, insert_provider,
  list_providers,
}
use scalpel_cli.Results.Providers.Refinement.{
  Operation, adds, updates, deletes, run, lookup-remove_key,
}

-- The store behind some operations, those that fail among them.
abbrev pub run_all : List Operation → Store → Store
run_all [] s = s
run_all (o ∷ os) s = run_all os (run o s).0

-- The fields that a provider must have.
abbrev pub Filled : Provider → Type 0
Filled p = (p.id ≢ "") × (p.name ≢ "") × (p.kind ≢ "")

-- A store has each key once, and under it a provider of that identifier.
abbrev Entry : String × Provider → Type 0
Entry (k, p) = (p.id ≡ k) × Filled p

abbrev Good : Store → Type 0
Good s = Distinct s × All Entry s

valid-Filled : (p : Provider) → is_invalid p ≡ false → Filled p
valid-Filled p h = (
  (λ e. let t = (eq_iff p.id "").1 e in ground (arith, h, t)),
  (λ e. let t = (eq_iff p.name "").1 e in ground (arith, h, t)),
  (λ e. let t = (eq_iff p.kind "").1 e in ground (arith, h, t)),
)

insert-Entry :
    (k : String) (p : Provider) (s : Store) → Entry (k, p) → All Entry s → All Entry (insert k p s)
unfolding insert
insert-Entry k p [] e h = (e, tt)
insert-Entry k p ((j, q) ∷ s) e h = elim (Bool-cases (str_eq j k)) [
  | inl t ↦ rw (t) (e, h.1)
  | inr t ↦ rw (t) (h.0, insert-Entry k p s e h.1)
]

insert-Good : (p : Provider) (s : Store) → Filled p → Good s → Good (insert p.id p s)
insert-Good p s f g = (insert-Distinct p.id p s g.0, insert-Entry p.id p s (refl, f) g.1)

remove_key-Good : (k : String) (s : Store) → Good s → Good (remove_key k s)
unfolding remove_key
remove_key-Good k [] g = g
remove_key-Good k ((j, p) ∷ s) ((n, d), (e, h)) = elim (Bool-cases (str_eq j k)) [
  | inl t ↦ rw (t) (remove_key-Good k s (d, h))
  | inr t ↦
      let r = remove_key-Good k s (d, h) in
      rw (t) ((ground (arith, n, lookup-remove_key k j s), r.0), (e, r.1))
]

run-Good : (o : Operation) (s : Store) → Good s → Good (run o s).0
unfolding add update delete_provider
run-Good (adds p) s g = elim (Bool-cases (is_invalid p)) [
  | inl e ↦ rw (e) g
  | inr e ↦ elim (Option-cases (lookup p.id s)) [
    | inl f ↦ rw (e, f) (insert-Good p s (valid-Filled p e) g)
    | inr (q, f) ↦ rw (e, f) g
  ]
]
run-Good (updates p) s g = elim (Bool-cases (is_invalid p)) [
  | inl e ↦ rw (e) g
  | inr e ↦ elim (Option-cases (lookup p.id s)) [
    | inl f ↦ rw (e, f) g
    | inr (q, f) ↦ rw (e, f) (insert-Good p s (valid-Filled p e) g)
  ]
]
run-Good (deletes k) s g = elim (Option-cases (lookup k s)) [
  | inl f ↦ rw (f, delete_provider) g
  | inr (q, f) ↦ rw (f, delete_provider) (remove_key-Good k s g)
]

run_all-Good : (os : List Operation) (s : Store) → Good s → Good (run_all os s)
run_all-Good [] s g = g
run_all-Good (o ∷ os) s g = run_all-Good os (run o s).0 (run-Good o s g)

-- No identifier is before the one that it follows.
abbrev IsBehind : Provider → List Provider → Type 0
IsBehind p [] = Unit
IsBehind p (q ∷ qs) = text_lt q.id p.id ≡ false

abbrev pub Ascending : List Provider → Type 0
Ascending [] = Unit
Ascending (p ∷ ps) = IsBehind p ps × Ascending ps

insert-IsBehind :
    (p q : Provider) (qs : List Provider)
    → text_lt q.id p.id ≡ true
    → IsBehind q qs
    → IsBehind q (insert_provider p qs)
unfolding insert_provider
insert-IsBehind p q [] t h = text_lt_asym q.id p.id t
insert-IsBehind p q (x ∷ qs) t h = elim (Bool-cases (text_lt x.id p.id)) [
  | inl e ↦ rw (e) h
  | inr e ↦ rw (e) (text_lt_asym q.id p.id t)
]

insert-Ascending :
    (p : Provider) (qs : List Provider) → Ascending qs → Ascending (insert_provider p qs)
unfolding insert_provider
insert-Ascending p [] h = (tt, tt)
insert-Ascending p (q ∷ qs) h = elim (Bool-cases (text_lt q.id p.id)) [
  | inl e ↦ rw (e) (insert-IsBehind p q qs e h.0, insert-Ascending p qs h.1)
  | inr e ↦ rw (e) (e, h)
]

list-Ascending : (s : Store) → Ascending (list_providers s)
unfolding list_providers
list-Ascending [] = tt
list-Ascending ((k, p) ∷ s) = insert-Ascending p (list_providers s) (list-Ascending s)

-- How often an identifier stands in a list.
unfoldable pub count_id : String → List Provider → ℕ
count_id k [] = 0
count_id k (p ∷ ps) = let rest = count_id k ps in if str_eq p.id k then suc rest else rest

abbrev pub one_if : Option Provider → ℕ
one_if none = 0
one_if (some p) = 1

count_id-insert :
    (k : String) (p : Provider) (qs : List Provider)
    → count_id k (insert_provider p qs) ≡ count_id k (p ∷ qs)
unfolding count_id insert_provider
count_id-insert k p [] = refl
count_id-insert k p (q ∷ qs) = ground (arith, count_id-insert k p qs)

count_id-list :
    (k : String) (s : Store) → Good s → count_id k (list_providers s) ≡ one_if (lookup k s)
unfolding count_id list_providers lookup
count_id-list k [] g = refl
count_id-list k ((j, p) ∷ s) ((n, d), (e, h)) =
    let r = count_id-list k s (d, h) in
    count_id-insert k p (list_providers s)
    ∙ rw e.0 (elim (Bool-cases (str_eq j k)) [
      | inl t ↦
          let none_left : lookup k s ≡ none = subst (λ x. lookup x s ≡ none) ((eq_iff j k).0 t) n in
          ground (arith, t, r, none_left)
      | inr t ↦ ground (arith, t, r)
    ])

-- A provider that is filled, and that Get finds.
abbrev pub Found : Store → Provider → Type 0
Found s p = (get p.id s ≡ inr p) × Filled p

abbrev Looked : Store → Provider → Type 0
Looked s p = (lookup p.id s ≡ some p) × Filled p

all_in_turn :
    (P Q : Provider → Type 0)
    → ((p : Provider) → P p → Q p)
    → (ps : List Provider) → All P ps
    → All Q ps
all_in_turn P Q f [] h = tt
all_in_turn P Q f (p ∷ ps) h = (f p h.0, all_in_turn P Q f ps h.1)

insert-All :
    (P : Provider → Type 0) (p : Provider) (qs : List Provider)
    → P p
    → All P qs
    → All P (insert_provider p qs)
unfolding insert_provider
insert-All P p [] x h = (x, tt)
insert-All P p (q ∷ qs) x h = elim (Bool-cases (text_lt q.id p.id)) [
  | inl e ↦ rw (e) (h.0, insert-All P p qs x h.1)
  | inr e ↦ rw (e) (x, h)
]

Looked-later :
    (j : String) (p q : Provider) (s : Store)
    → lookup j s ≡ none
    → Looked s q
    → Looked ((j, p) ∷ s) q
unfolding lookup
Looked-later j p q s n (l, f) = elim (Bool-cases (str_eq j q.id)) [
  | inl t ↦
      let clash = subst (λ x. lookup x s ≡ none) ((eq_iff j q.id).0 t) n in
      absurd (ground (arith, l, clash))
  | inr t ↦ (simp (t) l, f)
]

list-Looked : (s : Store) → Good s → All (Looked s) (list_providers s)
unfolding list_providers lookup
list-Looked [] g = tt
list-Looked ((j, p) ∷ s) ((n, d), (e, h)) =
    insert-All (Looked ((j, p) ∷ s)) p (list_providers s) (ground (arith, e.0, eq_iff j p.id), e.1)
      (all_in_turn (Looked s) (Looked ((j, p) ∷ s)) (λ q l. Looked-later j p q s n l)
        (list_providers s) (list-Looked s (d, h)))

Looked-Found : (s : Store) (p : Provider) → Looked s p → Found s p
unfolding get
Looked-Found s p (l, f) = (ground (arith, l), f)

-- Of a store that any sequence of Add, Update and Delete made of an empty one, List returns its
-- providers in the order of their identifiers, each with an identifier, a name and a type that are
-- not empty and as Get finds it under its identifier, and every identifier stands in the list once
-- if the store has it, and else never.
pub list_exact :
    (os : List Operation)
    → let s = run_all os [] in
      Ascending (list_providers s)
      × All (Found s) (list_providers s)
      × ((id : String) → count_id id (list_providers s) ≡ one_if (lookup id s))
list_exact os =
    let s = run_all os [] in
    let g = run_all-Good os [] (tt, tt) in
    (
      list-Ascending s,
      all_in_turn (Looked s) (Found s) (λ p l. Looked-Found s p l) (list_providers s)
          (list-Looked s g),
      λ id. count_id-list id s g,
    )
