-- ===== src/Discovery/Tests.antt =====
-- internal/discovery at concrete inputs.
use Prim.Native.String.{String}
use text.Mathlib.TextEquality.{eq_iff}
use scalpel_cli.Common.{
  ℕ, ◌≡◌, ◌≢◌, refl, inr, ◌==◌, true, false, [], ◌∷◌, some, arith, if◌then◌else◌,
}
use scalpel_cli.Common.Text.{ends_with}
use scalpel_cli.Common.Dict.{lookup}
use scalpel_cli.KnowledgeGraph.{empty_graph, is_some, get_edge}
use scalpel_cli.Discovery.{
  Url, Net, Scope, new_scope, is_scoped, absolute, normal, validated, is_ignored,
  normalize_and_validate,
}
use scalpel_cli.Discovery.Normal.{IsNormal, accepted-IsNormal}
use scalpel_cli.Discovery.Crawl.{
  Settings, Engine, new_session, seed, process_asset, note_asset, is_processed, enqueue_task, crawl,
  record_asset, edge_of,
}
use scalpel_cli.Discovery.Invariant.{Inv}
use scalpel_cli.Discovery.Steps.{here, later, seeded, crawl-Inv}
use scalpel_cli.Discovery.Ends.{crawl_ends}
use scalpel_cli.Discovery.Recorded.{asset_recorded}

abbrev home : Url
home = record { scheme = "https"; host = "a.b"; path = ""; raw_query = ""; fragment = "top" }

-- Hosts without ports, and one page.
abbrev net : Net
net = record {
  parse = λ s. some home;
  resolve = λ b u. u;
  hostname = λ h. h;
  print = λ u. "https://a.b/";
  sort_query = λ q. q;
  extension = λ p. "";
  root_of = λ h. some "a.b";
  new_id = λ n. if n == 0 then "0" else "1";
}

abbrev scope : Scope
scope = record { root_domain = "a.b"; include_subdomains = true }

made_scope : new_scope net "https://a.b" true ≡ some scope
unfolding new_scope
made_scope = refl

below : is_scoped scope "x.a.b" ≡ true
unfolding is_scoped ends_with
below = refl

beside : is_scoped scope "xa.b" ≡ false
unfolding is_scoped ends_with
beside = refl

abbrev home_page : Url
home_page = record { scheme = "https"; host = "a.b"; path = "/"; raw_query = ""; fragment = "" }

accepted : normalize_and_validate net scope "https://a.b#top" "" ≡ some home_page
unfolding normalize_and_validate absolute validated normal is_scoped is_ignored ends_with
accepted = refl

accepted-IsNormal_example : IsNormal net scope home_page
accepted-IsNormal_example =
    accepted-IsNormal net scope (λ h i. refl) "https://a.b#top" "" home_page accepted

abbrev settings : Settings
settings = record {
  max_depth = 1;
  queue_cap = 10;
  has_taint = true;
  has_headers = false;
  has_jwt = false;
  properties = λ d s. "";
}

abbrev seeds : Engine
seeds = seed net settings scope "https://a.b" "Seed" (new_session empty_graph)

one_task : seeds.queue ≡ record { url = "https://a.b/"; depth = 0 } ∷ []
unfolding seed process_asset note_asset is_processed enqueue_task normalize_and_validate absolute
    validated normal is_scoped is_ignored ends_with
one_task = refl

crawl-Inv_example : Inv net settings scope seeds
crawl-Inv_example =
    crawl-Inv net settings scope (λ h i. refl) empty_graph
      (later here (seeded "https://a.b" "Seed" (new_session empty_graph)))

abbrev queued : Engine
queued = record (new_session empty_graph) {
  queue = record { url = "https://a.b/"; depth = 0 } ∷ [];
}

crawl_ends_example :
    (n : ℕ) × ((crawl net settings scope (λ u. some ("x" ∷ [])) n queued).queue ≡ [])
crawl_ends_example = crawl_ends net settings scope (λ u. some ("x" ∷ [])) queued (omega arith, tt)

asset_recorded_example :
    let h = record_asset scope "https://x.a.b/" "x.a.b" "" "0" "1" empty_graph in
    (is_some (lookup "https://x.a.b/" h.nodes) ≡ true)
    × (is_some (lookup "x.a.b" h.nodes) ≡ true)
    × (get_edge "0" h ≡ inr (edge_of "0" "x.a.b" "https://x.a.b/" "HOSTS_URL" "HOSTS_URL"))
    × (◌≢◌ {A = String} "x.a.b" "a.b"
        → is_some (lookup "a.b" empty_graph.nodes) ≡ true
        → get_edge "1" h ≡ inr (edge_of "1" "a.b" "x.a.b" "HAS_SUBDOMAIN" "HAS_SUBDOMAIN"))
asset_recorded_example =
    asset_recorded scope "https://x.a.b/" "x.a.b" "" "0" "1" empty_graph
      (λ e. ground (arith, (eq_iff "0" "1").1 e))
