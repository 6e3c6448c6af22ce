-- ===== src/Discovery/Invariant.antt =====
-- What holds of the crawl of internal/discovery/engine.go between its steps, through processAsset.
use Prim.Native.String.{String}
use text.Mathlib.Text.{◌==◌ as str_eq}
use text.Mathlib.TextEquality.{eq_iff}
use scalpel_cli.Common.{
  ℕ, suc, ◌+◌, ◌≤◌, ◌<◌, ◌≡◌, ◌≢◌, refl, subst, true, false, ◌&&◌, List, [], ◌∷◌, ◌++◌, inl, inr,
  All, All-append, arith, length, length-append, ltb, ltb→lt, Bool-cases, if◌then◌else◌,
}
use scalpel_cli.KnowledgeGraph.{Graph}
use scalpel_cli.Discovery.{Url, Net, Scope}
use scalpel_cli.Discovery.Normal.{StableHosts, IsNormal}
use scalpel_cli.Discovery.Crawl.{
  CrawlTask, Settings, Engine, new_session, is_processed, tasks_for, enqueue_task, note_asset,
  process_asset,
}

-- How often a task was dispatched for a URL.
abbrev pub count_task : (type url : String) → List (String × String) → ℕ
count_task k u [] = 0
count_task k u ((j, v) ∷ ts) =
    if str_eq j k && str_eq v u then suc (count_task k u ts) else count_task k u ts

-- The text of a URL that normalizeAndValidate accepts.
abbrev pub IsAsset : Net → Scope → String → Type 0
IsAsset net s url = (u : Url) × (net.print u ≡ url) × IsNormal net s u

pub record Inv (net : Net) (cfg : Settings) (s : Scope) (e : Engine) : Type 0 where
  pub counted : e.waiting ≡ length e.queue + length e.crawling
  pub closed : e.is_closed ≡ true → (e.is_seeding ≡ false) × (e.waiting ≡ 0)
  pub calm : e.has_panicked ≡ false
  pub assets : All (λ url. IsAsset net s url) e.processed
  pub depths : All (λ (t : CrawlTask). t.depth < cfg.max_depth) e.queue
  pub once :
      (k u : String) → count_task k u e.dispatched ≤ (if is_processed u e.processed then 1 else 0)

count_task-append :
    (k u : String) (xs ys : List (String × String))
    → count_task k u (xs ++ ys) ≡ count_task k u xs + count_task k u ys
count_task-append k u [] ys = omega arith
count_task-append k u ((j, v) ∷ xs) ys = ground (arith, count_task-append k u xs ys)

differ : (s t : String) → str_eq s t ≡ false → s ≢ t
differ s t h e = ground (arith, h, (eq_iff s t).1 e)

count-tasks_for :
    (cfg : Settings) (k u v : String)
    → count_task k u (tasks_for cfg v) ≤ (if str_eq v u then 1 else 0)
unfolding tasks_for
count-tasks_for cfg k u v = ground (
  arith,
  eq_iff "ANALYZE_WEB_PAGE_TAINT" k,
  eq_iff "ANALYZE_HEADERS" k,
  eq_iff "ANALYZE_JWT" k,
  differ "ANALYZE_WEB_PAGE_TAINT" "ANALYZE_HEADERS" refl,
  differ "ANALYZE_WEB_PAGE_TAINT" "ANALYZE_JWT" refl,
  differ "ANALYZE_HEADERS" "ANALYZE_JWT" refl,
)

module _ (net : Net) (cfg : Settings) (s : Scope) where
  pub new_session-Inv : (g : Graph) → Inv net cfg s (new_session g)
  unfolding is_processed
  new_session-Inv g = record {
    counted = omega arith;
    closed = λ h. absurd (ground (arith, h));
    calm = refl;
    assets = tt;
    depths = tt;
    once = λ k u. omega arith;
  }

  enqueue_task-Inv :
      (t : CrawlTask) (e : Engine)
      → e.is_closed ≡ false
      → t.depth < cfg.max_depth
      → Inv net cfg s e
      → Inv net cfg s (enqueue_task cfg t e)
  unfolding enqueue_task
  enqueue_task-Inv t e c d i =
      let kept =
        All-append (λ (t : CrawlTask). t.depth < cfg.max_depth) e.queue (t ∷ []) i.depths (d, tt) in
      elim (Bool-cases (ltb (length e.queue) cfg.queue_cap)) [
        | inl l ↦
            simp (c, l)
              (record {
                counted = omega (arith, i.counted, length-append e.queue (t ∷ []));
                closed = λ h. absurd (ground (arith, c, h));
                calm = i.calm;
                assets = i.assets;
                depths = kept;
                once = i.once;
              })
        | inr l ↦ simp (c, l) i
      ]

  module _ (stable : StableHosts net s) where
    note_asset_open :
        (u : Url) (depth : ℕ) (source : String) (e : Engine)
        → e.is_closed ≡ false
        → (note_asset net cfg s u depth source e).is_closed ≡ false
    unfolding note_asset
    note_asset_open u depth source e c = c

    once_more :
        (url : String) (e : Engine)
        → is_processed url e.processed ≡ false
        → ((k u : String)
            → count_task k u e.dispatched ≤ (if is_processed u e.processed then 1 else 0))
        → (k u : String)
        → count_task k u (e.dispatched ++ tasks_for cfg url)
          ≤ (if is_processed u (url ∷ e.processed) then 1 else 0)
    unfolding is_processed
    once_more url e new once k u = elim (Bool-cases (str_eq url u)) [
      | inl h ↦
          let gone : is_processed u e.processed ≡ false =
            subst (λ x. is_processed x e.processed ≡ false) ((eq_iff url u).0 h) new in
          ground (
            arith,
            h,
            gone,
            once k u,
            count_task-append k u e.dispatched (tasks_for cfg url),
            count-tasks_for cfg k u url,
          )
      | inr h ↦ ground (
        arith,
        h,
        once k u,
        count_task-append k u e.dispatched (tasks_for cfg url),
        count-tasks_for cfg k u url,
      )
    ]

    note_asset-Inv :
        (u : Url) (depth : ℕ) (source : String) (e : Engine)
        → IsNormal net s u
        → is_processed (net.print u) e.processed ≡ false
        → Inv net cfg s e
        → Inv net cfg s (note_asset net cfg s u depth source e)
    unfolding note_asset
    note_asset-Inv u depth source e n new i = record {
      counted = i.counted;
      closed = i.closed;
      calm = i.calm;
      assets = ((u, refl, n), i.assets);
      depths = i.depths;
      once = once_more (net.print u) e new i.once;
    }

    pub process_asset-Inv :
        (u : Url) (depth : ℕ) (source : String) (e : Engine)
        → IsNormal net s u
        → e.is_closed ≡ false
        → Inv net cfg s e
        → Inv net cfg s (process_asset net cfg s u depth source e)
    unfolding process_asset
    process_asset-Inv u depth source e n c i =
        elim (Bool-cases (is_processed (net.print u) e.processed)) [
          | inl p ↦ simp (p) i
          | inr p ↦
              let noted = note_asset-Inv u depth source e n p i in
              elim (Bool-cases (ltb depth cfg.max_depth)) [
                | inl d ↦
                    simp (p, d)
                      (enqueue_task-Inv (record { url = net.print u; depth = depth })
                        (note_asset net cfg s u depth source e) (note_asset_open u depth source e c)
                        (ltb→lt depth cfg.max_depth d) noted)
                | inr d ↦ simp (p, d) noted
              ]
        ]
