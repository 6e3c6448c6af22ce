-- ===== src/Taint/Probing/Session.antt =====
-- executeProbes of internal/analysis/active/taint/taint_analyzer.go, with
-- generateAndExecuteSmartProbes.
use Prim.Native.String.{String}
use scalpel_cli.Common.{Bool, true, false, List, [], ◌∷◌, ◌++◌}
use scalpel_cli.Common.Dict.{Dict}
use scalpel_cli.Taint.Types.{ProbeDefinition, StaticFinding}
use scalpel_cli.Taint.Probing.{
  Web, Naming, Probing, Ended, navigate, interact, ok, act, pause_then, and_on,
}
use scalpel_cli.Taint.Probing.Urls.{probe_url_sources, probe_specific, target_params}
use scalpel_cli.Taint.Probing.Storage.{probe_persistent_sources}

unfoldable pub all_findings : Dict (List StaticFinding) → List StaticFinding
all_findings [] = []
all_findings ((file, fs) ∷ d) = fs ++ all_findings d

abbrev specific_if : Web → Naming → Bool → List ProbeDefinition → List String → Probing → Ended
specific_if w n use_hash ds [] p = ok p
specific_if w n use_hash ds (name ∷ names) p = probe_specific w n use_hash ds (name ∷ names) p

-- `generateAndExecuteSmartProbes`, whose errors are logged.
unfoldable pub smart_probes :
    Web → Naming → List ProbeDefinition → Dict (List StaticFinding) → Probing → Ended
smart_probes w n ds known p =
    let found = all_findings known in
    and_on (specific_if w n false ds (target_params "param:query:" found []) p)
      (λ q. and_on (specific_if w n true ds (target_params "param:hash:" found []) q) ok)

-- The last pause fails without an error.
abbrev interaction : Probing → Ended
interaction p = pause_then (λ q. and_on (pause_then ok (act interact q)) ok) p

-- `executeProbes`; `known` gives the static findings that there are by the time they are asked for.
unfoldable pub execute_probes :
    Web → Naming → List ProbeDefinition → (known : Dict (List StaticFinding)) → Probing → Ended
execute_probes w n ds known = pause_then (λ a.
    pause_then
      (λ b. and_on (probe_persistent_sources w n ds b) (
        pause_then (λ c.
          and_on (probe_url_sources w n ds c)
            (λ e. and_on (smart_probes w n ds known e) interaction))))
      (act (navigate w.target) a))
