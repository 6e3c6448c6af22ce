-- ===== src/Taint/Probing/Storage.antt =====
-- probePersistentSources of internal/analysis/active/taint/taint_analyzer.go.
use Prim.Native.String.{String}
use text.Mathlib.Text.{◌==◌ as str_eq}
use scalpel_cli.Common.{ℕ, suc, List, [], ◌∷◌, Option, none, some, if◌then◌else◌}
use scalpel_cli.Taint.Types.{ProbeDefinition}
use scalpel_cli.Taint.Probing.{
  Web, Naming, Probing, Ended, navigate, execute_script, ok, act, pause_then, inject, ◌++ₛ◌,
}

abbrev storage_command : Web → (object key : String) → Option String → String
storage_command w object key none = ""
storage_command w object key (some payload) =
    "try { "
    ++ₛ object
    ++ₛ ".setItem("
    ++ₛ w.quoted key
    ++ₛ ", "
    ++ₛ w.json_text payload
    ++ₛ "); } catch(e) {}\n"

abbrev cookie_command : Web → (name : String) → Option String → String
cookie_command w name none = ""
cookie_command w name (some payload) =
    "try { document.cookie = `"
    ++ₛ name
    ++ₛ "="
    ++ₛ w.query_escape payload
    ++ₛ "; path=/; max-age=3600; samesite=Lax;"
    ++ₛ (if w.is_https then " Secure;" else "")
    ++ₛ "`; } catch(e) {}\n"

-- The three injections of one probe: its part of the script, and the probes registered.
unfoldable pub inject_stored : Web → Naming → ℕ → ProbeDefinition → Probing → String × Probing
inject_stored w n i d p =
    let local_key = "sc_store_" ++ₛ w.decimal i in
    let session_key = "sc_store_" ++ₛ w.decimal i ++ₛ "_s" in
    let cookie = "sc_cookie_" ++ₛ w.decimal i in
    let (a, p₁) = inject w n "P" "LOCAL_STORAGE" local_key d p in
    let (b, p₂) = inject w n "P" "SESSION_STORAGE" session_key d p₁ in
    let (c, p₃) = inject w n "P" "COOKIE" cookie d p₂ in
    (
      storage_command w "localStorage" local_key a
          ++ₛ storage_command w "sessionStorage" session_key b
          ++ₛ cookie_command w cookie c,
      p₃,
    )

unfoldable pub stored_probes :
    Web → Naming → ℕ → List ProbeDefinition → String → Probing → String × Probing
stored_probes w n i [] script p = (script, p)
stored_probes w n i (d ∷ ds) script p =
    let (part, p₂) = inject_stored w n i d p in stored_probes w n (suc i) ds (script ++ₛ part) p₂

-- `probePersistentSources`
unfoldable pub probe_persistent_sources : Web → Naming → List ProbeDefinition → Probing → Ended
probe_persistent_sources w n ds p =
    let (script, p₂) = stored_probes w n 0 ds "" p in
    if str_eq script ""
    then ok p₂
    else pause_then
        (λ q.
          pause_then (λ r. pause_then ok (act (navigate w.target) r))
            (act (execute_script script) q))
        p₂
