-- ===== src/Discovery/Recorded.antt =====
-- What processAsset of internal/discovery/engine.go writes into the knowledge graph.
use Prim.Native.String.{String}
use text.Mathlib.Text.{◌==◌ as str_eq}
use text.Mathlib.TextEquality.{eq_iff}
use text.Mathlib.TextPositions.{eq_refl}
use scalpel_cli.Common.{◌≡◌, ◌≢◌, refl, sym, ap, ◌∙◌, true, inl, inr, arith, Bool-cases}
use scalpel_cli.Common.Dict.{lookup, lookup-insert}
use scalpel_cli.KnowledgeGraph.{Node, Edge, Graph, is_some, add_node, add_edge, get_edge}
use scalpel_cli.KnowledgeGraph.Reads.{add_edge_result}
use scalpel_cli.Discovery.{Scope}
use scalpel_cli.Discovery.Crawl.{record_asset, node_of, edge_of}

-- What a new edge leaves as it is, whether it is stored or not.
record Kept (e : Edge) (g : Graph) : Type 0 where
  nodes : (add_edge e g).0.nodes ≡ g.nodes
  others : (k : String) → e.id ≢ k → get_edge k (add_edge e g).0 ≡ get_edge k g

add_edge-Kept : (e : Edge) (g : Graph) → Kept e g
add_edge-Kept e g = elim (add_edge_result e g) [
  | inl (ok, a, b, same, edges) ↦ record {
    nodes = same;
    others = λ k n. edges k ∙ ground (arith, n, eq_iff e.id k);
  }
  | inr (gone, failed, same) ↦ record {
    nodes = ap (λ g. g.nodes) same;
    others = λ k n. ap (get_edge k) same;
  }
]

add_edge_stored :
    (e : Edge) (g : Graph)
    → is_some (lookup e.from g.nodes) ≡ true
    → is_some (lookup e.to g.nodes) ≡ true
    → get_edge e.id (add_edge e g).0 ≡ inr e
add_edge_stored e g f t = elim (add_edge_result e g) [
  | inl (ok, a, b, same, edges) ↦ edges e.id ∙ rw (eq_refl e.id) refl
  | inr (gone, failed, same) ↦ absurd (ground (arith, gone, f, t))
]

has_added : (n : Node) (g : Graph) → is_some (lookup n.id (add_node n g).nodes) ≡ true
unfolding add_node
has_added n g = ap is_some (lookup-insert n.id n.id n g.nodes) ∙ rw (eq_refl n.id) refl

has_still :
    (n : Node) (g : Graph) (k : String)
    → is_some (lookup k g.nodes) ≡ true
    → is_some (lookup k (add_node n g).nodes) ≡ true
unfolding add_node
has_still n g k h = ap is_some (lookup-insert n.id k n g.nodes) ∙ ground (arith, h)

-- The host and the URL with the edge between them.
abbrev hosts : (id host url : String) → Edge
hosts id host url = edge_of id host url "HOSTS_URL" "HOSTS_URL"

abbrev belongs : (id root host : String) → Edge
belongs id root host = edge_of id root host "HAS_SUBDOMAIN" "HAS_SUBDOMAIN"

-- Where the two identifiers of an asset differ, the graph has its URL and its host afterwards, with
-- the edge from the host to the URL, and, where the host is not the root domain and the graph has
-- that, the edge from the root domain to the host.
pub asset_recorded :
    (s : Scope) (url host properties a b : String) (g : Graph)
    → a ≢ b
    → let h = record_asset s url host properties a b g in
      (is_some (lookup url h.nodes) ≡ true)
      × (is_some (lookup host h.nodes) ≡ true)
      × (get_edge a h ≡ inr (hosts a host url))
      × (host ≢ s.root_domain
          → is_some (lookup s.root_domain g.nodes) ≡ true
          → get_edge b h ≡ inr (belongs b s.root_domain host))
unfolding record_asset
asset_recorded s url host properties a b g n =
    let u = node_of url "URL" properties in
    let d = node_of host "DOMAIN" "" in
    let g₁ = add_node u g in
    let g₂ = add_node d g₁ in
    let has_url = has_still d g₁ url (has_added u g) in
    let has_host = has_added d g₁ in
    let g₃ = (add_edge (hosts a host url) g₂).0 in
    let kept = add_edge-Kept (hosts a host url) g₂ in
    let there = add_edge_stored (hosts a host url) g₂ has_host has_url in
    let has : (k : String)
        → is_some (lookup k g₂.nodes) ≡ true
        → is_some (lookup k g₃.nodes) ≡ true =
      λ k h. ap (λ m. is_some (lookup k m)) kept.nodes ∙ h in
    let last = add_edge-Kept (belongs b s.root_domain host) g₃ in
    elim (Bool-cases (str_eq host s.root_domain)) [
      | inl e ↦ rw (e) (
        has url has_url,
        has host has_host,
        there,
        λ m r. absurd (m ((eq_iff host s.root_domain).0 e)),
      )
      | inr e ↦ rw (e) (
        ap (λ m. is_some (lookup url m)) last.nodes ∙ has url has_url,
        ap (λ m. is_some (lookup host m)) last.nodes ∙ has host has_host,
        last.others a (λ q. n (sym q)) ∙ there,
        λ m r.
            add_edge_stored (belongs b s.root_domain host) g₃
              (has s.root_domain (has_still d g₁ s.root_domain (has_still u g s.root_domain r)))
              (has host has_host),
      )
    ]
