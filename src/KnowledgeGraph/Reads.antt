-- ===== src/KnowledgeGraph/Reads.antt =====
-- What the reading methods return on a graph whose index is exact.
use Prim.Native.String.{String}
use text.Mathlib.Text.{◌==◌ as str_eq}
use text.Mathlib.TextEquality.{eq_iff}
use scalpel_cli.Common.{
  ◌<◌, ◌≡◌, ◌∙◌, ◌⊎◌, refl, sym, subst, ap, true, false, ◌&&◌, List, [], ◌∷◌, map, Option, none,
  some, arith, Option-cases, Bool-cases, inl, inr, if◌then◌else◌, All,
}
use mathlib.Core.Path.{ap₂}
use scalpel_cli.Common.Dict.{lookup, lookup-insert}
use scalpel_cli.KnowledgeGraph.{
  Node, Edge, Graph, is_some, outgoing, add_edge, get_edge, edges_of, targets_of, get_neighbors,
  get_edges,
}
use scalpel_cli.KnowledgeGraph.Index.{Inv, count, leaves, reindex-keeps}

-- What holds of every identifier that a list counts holds along the list.
All_of_count :
    (P : String → Type 0) (l : List String) → ((k : String) → 0 < count k l → P k) → All P l
unfolding count
All_of_count P [] h = tt
All_of_count P (x ∷ xs) h =
    (h x (ground (arith, eq_iff x x)), All_of_count P xs (λ k p. h k (ground (arith, eq_iff x k))))

module _ (n : String) (g : Graph) (v : Inv g) where
  -- An identifier of the index names an edge that leaves the node.
  abbrev Leaving : String → Type 0
  Leaving k = (e : Edge) × (lookup k g.edges ≡ some e) × (e.from ≡ n)

  Leaving-leaves :
      (k : String) (o : Option Edge) → lookup k g.edges ≡ o → 0 < leaves n o → Leaving k
  Leaving-leaves k none h p = absurd (omega (arith, p))
  Leaving-leaves k (some e) h p = (e, h, ground (arith, eq_iff e.from n))

  all-Leaving : All Leaving (outgoing n g)
  all-Leaving =
      All_of_count Leaving (outgoing n g)
        λ k p. Leaving-leaves k (lookup k g.edges) refl (omega (arith, v.index k n))

  found_by_id : (k : String) (e : Edge) → lookup k g.edges ≡ some e → lookup e.id g.edges ≡ some e
  found_by_id k e q = subst (λ j. lookup j g.edges ≡ some e) (sym (v.named k e q)) q

  edges_of-id :
      (l : List String)
      → All Leaving l
      → (map (λ (e : Edge). e.id) (edges_of g.edges l) ≡ l)
        × All (λ (e : Edge). (e.from ≡ n) × (lookup e.id g.edges ≡ some e)) (edges_of g.edges l)
  unfolding edges_of
  edges_of-id [] h = (refl, tt)
  edges_of-id (k ∷ ks) ((e, q, f), hs) =
      let (ids, froms) = edges_of-id ks hs in
      rw q (ap₂ (◌∷◌) (v.named k e q) ids, ((f, found_by_id k e q), froms))

  target_found :
      (k : String) (e : Edge)
      → lookup k g.edges ≡ some e
      → (t : Node) × (lookup e.to g.nodes ≡ some t)
  target_found k e q = elim (Option-cases (lookup e.to g.nodes)) [
    | inl none_there ↦ absurd (let h = v.target k e q in ground arith)
    | inr found ↦ found
  ]

  targets_of-edges_of :
      (l : List String)
      → All Leaving l
      → map some (targets_of g.nodes g.edges l)
        ≡ map (λ (e : Edge). lookup e.to g.nodes) (edges_of g.edges l)
  unfolding edges_of targets_of
  targets_of-edges_of [] h = refl
  targets_of-edges_of (k ∷ ks) ((e, q, f), hs) =
      let (t, found) = target_found k e q in
      rw q (rw found (ap (◌∷◌ (some t)) (targets_of-edges_of ks hs)))

  -- On a graph with an exact index, for a node of the graph, GetEdges returns edges that leave the
  -- node, each as it is stored under its identifier, and every identifier of an edge that leaves the
  -- node stands in the result once, and no other; GetNeighbors returns the nodes that these edges
  -- lead to, as they are stored, in the same order and none left out.
  pub reads_exact :
      is_some (lookup n g.nodes) ≡ true
      → (es : List Edge) × (ns : List Node) × (get_edges n g ≡ inr es)
        × (get_neighbors n g ≡ inr ns)
        × All (λ (e : Edge). (e.from ≡ n) × (lookup e.id g.edges ≡ some e)) es
        × ((k : String) → count k (map (λ (e : Edge). e.id) es) ≡ leaves n (lookup k g.edges))
        × (map some ns ≡ map (λ (e : Edge). lookup e.to g.nodes) es)
  unfolding get_edges get_neighbors
  reads_exact h =
      let r = edges_of-id (outgoing n g) all-Leaving in
      (
        edges_of g.edges (outgoing n g),
        targets_of g.nodes g.edges (outgoing n g),
        rw h,
        rw h,
        r.1,
        λ k. ap (count k) r.0 ∙ v.index k n,
        targets_of-edges_of (outgoing n g) all-Leaving,
      )

-- `AddEdge` fails exactly when an endpoint is not in the graph, and then leaves the graph as it was;
-- when it succeeds, `GetEdge` finds the new edge under its identifier and every other edge as before,
-- and the nodes are unchanged.
pub add_edge_result :
    (e : Edge) (g : Graph)
    → (((add_edge e g).1 ≡ none)
        × (is_some (lookup e.from g.nodes) ≡ true)
        × (is_some (lookup e.to g.nodes) ≡ true)
        × ((add_edge e g).0.nodes ≡ g.nodes)
        × ((k : String)
            → get_edge k (add_edge e g).0 ≡ (if str_eq e.id k then inr e else get_edge k g)))
      ⊎ ((is_some (lookup e.from g.nodes) && is_some (lookup e.to g.nodes) ≡ false)
          × (is_some (add_edge e g).1 ≡ true)
          × ((add_edge e g).0 ≡ g))
unfolding add_edge get_edge
add_edge_result e g = elim (Bool-cases (is_some (lookup e.from g.nodes))) [
  | inr f ↦ inr (rw f, rw f, rw f)
  | inl f ↦ elim (Bool-cases (is_some (lookup e.to g.nodes))) [
    | inr t ↦ inr (rw (f, t), rw (f, t), rw (f, t))
    | inl t ↦
        let (nodes, edges) = reindex-keeps (lookup e.id g.edges) e g in
        inl (
          rw (f, t),
          f,
          t,
          rw (f, t) nodes,
          λ k. rw (f, t) (rw edges (ground (arith, lookup-insert e.id k e g.edges))),
        )
  ]
]
