-- ===== src/KnowledgeGraph/Index.antt =====
-- The index of outgoing edges agrees with the map of edges.
use Prim.Native.String.{String}
use text.Mathlib.Text.{◌==◌ as str_eq}
use text.Mathlib.TextEquality.{eq_iff}
use scalpel_cli.Common.{
  ℕ, suc, subst, ◌+◌, ◌-◌, ◌≡◌, ◌∙◌, refl, sym, ap, true, false, List, [], ◌∷◌, ◌++◌, Option, none,
  some, arith, Bool-cases, inl, inr, if◌then◌else◌,
}
use scalpel_cli.Common.Dict.{Dict, lookup, insert, lookup-insert}
use scalpel_cli.KnowledgeGraph.{
  Node, Edge, Graph, empty_graph, add_node, is_some, outgoing, last_of, front_of, close_gap,
  swap_remove, contains, remove_from_outgoing, append_outgoing, reindex, store_edge, add_edge,
  Update, node_update, edge_update, apply_update, apply_updates,
}

-- How often an identifier stands in a slice.
unfoldable pub count : String → List String → ℕ
count e [] = 0
count e (x ∷ xs) = if str_eq x e then suc (count e xs) else count e xs

count-append :
    (e x : String) (xs : List String) → count e (xs ++ x ∷ []) ≡ count e xs + count e (x ∷ [])
unfolding count
count-append e x [] = ground arith
count-append e x (y ∷ ys) = ground (arith, count-append e x ys)

count-close_gap :
    (e : String) (x : String) (xs : List String)
    → count e (last_of x xs ∷ front_of x xs) ≡ count e (x ∷ xs)
unfolding count last_of front_of
count-close_gap e x [] = refl
count-close_gap e x (y ∷ ys) = ground (arith, count-close_gap e y ys)

count-swap_remove :
    (e k : String) (xs : List String)
    → count e (swap_remove k xs) ≡ (if str_eq k e then count e xs - 1 else count e xs)
unfolding count swap_remove close_gap
count-swap_remove e k [] = ground arith
count-swap_remove e k (x ∷ []) = ground (arith, eq_iff x k, eq_iff k e, eq_iff x e)
count-swap_remove e k (x ∷ (y ∷ ys)) = ground (
  arith,
  eq_iff x k,
  eq_iff k e,
  eq_iff x e,
  count-close_gap e y ys,
  count-swap_remove e k (y ∷ ys),
)

contains-count : (e : String) (xs : List String) → contains e xs ≡ false → count e xs ≡ 0
unfolding contains count
contains-count e [] h = refl
contains-count e (x ∷ xs) h = ground (arith, contains-count e xs)

-- How often an edge should stand in the index of a node: once if it leaves the node, and else never.
abbrev pub leaves : String → Option Edge → ℕ
leaves n none = 0
leaves n (some e) = if str_eq e.from n then 1 else 0

-- Edges are stored under their identifiers and join nodes of the graph, and the index is exact.
pub record Inv (g : Graph) : Type 0 where
  pub named : (k : String) (e : Edge) → lookup k g.edges ≡ some e → e.id ≡ k
  pub source :
      (k : String) (e : Edge) → lookup k g.edges ≡ some e → is_some (lookup e.from g.nodes) ≡ true
  pub target :
      (k : String) (e : Edge) → lookup k g.edges ≡ some e → is_some (lookup e.to g.nodes) ≡ true
  pub index : (k n : String) → count k (outgoing n g) ≡ leaves n (lookup k g.edges)

pub empty_graph-Inv : Inv empty_graph
unfolding empty_graph lookup outgoing count
empty_graph-Inv = record {
  named = λ k e h. ground arith;
  source = λ k e h. ground arith;
  target = λ k e h. ground arith;
  index = λ k n. refl;
}

still_some :
    (k j : String) (n : Node) (d : Dict Node)
    → is_some (lookup j d) ≡ true
    → is_some (lookup j (insert k n d)) ≡ true
still_some k j n d h = ground (arith, lookup-insert k j n d)

add_node-Inv : (n : Node) (g : Graph) → Inv g → Inv (add_node n g)
unfolding add_node outgoing
add_node-Inv n g v = record {
  named = v.named;
  source = λ k e h. still_some n.id e.from n g.nodes (v.source k e h);
  target = λ k e h. still_some n.id e.to n g.nodes (v.target k e h);
  index = v.index;
}

outgoing-insert :
    (n m : String) (l : List String) (g : Graph)
    → outgoing m (record g { outgoing_edges = insert n l g.outgoing_edges })
      ≡ (if str_eq n m then l else outgoing m g)
unfolding outgoing
outgoing-insert n m l g = ground (arith, lookup-insert n m l g.outgoing_edges)

-- The counts after each of the two writes to the index.
count-append_outgoing :
    (n e k m : String) (g : Graph)
    → count k (outgoing m (append_outgoing n e g))
      ≡ (if str_eq n m then count k (outgoing m g) + count k (e ∷ []) else count k (outgoing m g))
unfolding append_outgoing
count-append_outgoing n e k m g = ground (
  arith,
  eq_iff n m,
  outgoing-insert n m (outgoing n g ++ e ∷ []) g,
  count-append k e (outgoing n g),
)

count-remove_from_outgoing :
    (n e k m : String) (g : Graph)
    → count k (outgoing m (remove_from_outgoing n e g)) ≡ (
        if str_eq n m
        then (if str_eq e k then count k (outgoing m g) - 1 else count k (outgoing m g))
        else count k (outgoing m g))
unfolding remove_from_outgoing
count-remove_from_outgoing n e k m g = ground (
  arith,
  eq_iff n m,
  eq_iff e k,
  outgoing-insert n m (swap_remove e (outgoing n g)) g,
  count-swap_remove k e (outgoing n g),
  contains-count e (outgoing n g),
)

reindex-index :
    (e : Edge) (g : Graph) (o : Option Edge)
    → Inv g
    → lookup e.id g.edges ≡ o
    → (k m : String)
    → count k (outgoing m (reindex o e g)) ≡ leaves m (lookup k (insert e.id e g.edges))
unfolding reindex count
reindex-index e g none v h k m = ground (
  arith,
  count-append_outgoing e.from e.id k m g,
  lookup-insert e.id k e g.edges,
  v.index k m,
  eq_iff e.id k,
)
reindex-index e g (some old) v h k m = ground (
  arith,
  count-append_outgoing e.from e.id k m (remove_from_outgoing old.from e.id g),
  count-remove_from_outgoing old.from e.id k m g,
  lookup-insert e.id k e g.edges,
  v.index k m,
  eq_iff e.id k,
  eq_iff old.from e.from,
  eq_iff old.from m,
  eq_iff e.from m,
)

-- The writes to the index leave nodes and edges alone.
pub reindex-keeps :
    (o : Option Edge) (e : Edge) (g : Graph)
    → ((reindex o e g).nodes ≡ g.nodes) × ((reindex o e g).edges ≡ g.edges)
unfolding reindex append_outgoing remove_from_outgoing
reindex-keeps o e g = (ground arith, ground arith)

store-outgoing : (e : Edge) (m : String) (g : Graph) → outgoing m (store_edge e g) ≡ outgoing m g
unfolding outgoing
store-outgoing e m g = refl

-- A fact about every edge of the map, carried over an insertion.
module _ (P : String → Edge → Type 0) (e : Edge) (d : Dict Edge) where
  every-insert :
      P e.id e
      → ((k : String) (x : Edge) → lookup k d ≡ some x → P k x)
      → (k : String) (x : Edge) → lookup k (insert e.id e d) ≡ some x
      → P k x
  every-insert p old k x h = elim (Bool-cases (str_eq e.id k)) [
    | inl same ↦
        let new : e ≡ x = ground (arith, lookup-insert e.id k e d) in
        subst (λ y. P k y) new (subst (λ j. P j e) ((eq_iff e.id k).0 same) p)
    | inr other ↦ old k x (ground (arith, lookup-insert e.id k e d))
  ]

stored-Inv :
    (e : Edge) (g : Graph)
    → Inv g
    → is_some (lookup e.from g.nodes) ≡ true
    → is_some (lookup e.to g.nodes) ≡ true
    → Inv (store_edge e (reindex (lookup e.id g.edges) e g))
stored-Inv e g v f t =
    let o = lookup e.id g.edges in
    let (nodes, edges) = reindex-keeps o e g in
    record {
      named = λ k x h. every-insert (λ j y. y.id ≡ j) e g.edges refl v.named k x (rw edges at h);
      source = λ k x h. rw nodes (
          every-insert (λ j y. is_some (lookup y.from g.nodes) ≡ true) e g.edges f v.source k x
            (rw edges at h));
      target = λ k x h. rw nodes (
          every-insert (λ j y. is_some (lookup y.to g.nodes) ≡ true) e g.edges t v.target k x
            (rw edges at h));
      index = λ k m.
          ap (count k) (store-outgoing e m (reindex o e g))
          ∙ reindex-index e g o v refl k m
          ∙ ap (λ d. leaves m (lookup k (insert e.id e d))) (sym edges);
    }

add_edge-Inv : (e : Edge) (g : Graph) → Inv g → Inv (add_edge e g).0
unfolding add_edge
add_edge-Inv e g v = elim (Bool-cases (is_some (lookup e.from g.nodes))) [
  | inr f ↦ rw f v
  | inl f ↦ elim (Bool-cases (is_some (lookup e.to g.nodes))) [
    | inr t ↦ rw (f, t) v
    | inl t ↦ rw (f, t) (stored-Inv e g v f t)
  ]
]

apply_update-Inv : (u : Update) (g : Graph) → Inv g → Inv (apply_update u g)
unfolding apply_update
apply_update-Inv (node_update n) g v = add_node-Inv n g v
apply_update-Inv (edge_update e) g v = add_edge-Inv e g v

-- Any sequence of calls of `AddNode` and `AddEdge`, rejected ones included, keeps this of a graph:
-- every edge is stored under its own identifier and joins two nodes of the graph, and the index of
-- outgoing edges holds each edge once under its source and nowhere else.
pub apply_updates-Inv : (us : List Update) (g : Graph) → Inv g → Inv (apply_updates us g)
unfolding apply_updates
apply_updates-Inv [] g v = v
apply_updates-Inv (u ∷ us) g v = apply_updates-Inv us (apply_update u g) (apply_update-Inv u g v)
