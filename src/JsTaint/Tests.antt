-- ===== src/JsTaint/Tests.antt =====
-- internal/analysis/static/javascript/state.go at concrete inputs.
use scalpel_cli.Common.{◌≡◌, refl, false, ◌||◌, [], ◌∷◌, some}
use scalpel_cli.JsTaint.{
  TaintState, simple, object, no_properties, property, has_source, get_sources, get_source, merge,
  is_tainted, merge_simple, merge_sources, adds_source, add_sources, sort_texts, insert_text,
  join_bars, set_property, lookup_property, get_property_taint, set_property_taint,
  new_simple_taint,
}
use scalpel_cli.JsTaint.Joins.{merge_joins}

abbrev from_hash : TaintState
from_hash = simple ("location.hash" ∷ []) 7

abbrev with_cookie : TaintState
with_cookie = object (property "a" (simple ("document.cookie" ∷ []) 3) no_properties) false

merge_joins_example : has_source "document.cookie" (get_sources (merge with_cookie from_hash)) ≡ (
    has_source "document.cookie" (get_sources with_cookie)
    || has_source "document.cookie" (get_sources from_hash))
merge_joins_example = merge_joins "document.cookie" with_cookie from_hash

both_reported : get_source (merge from_hash with_cookie) ≡ "document.cookie|location.hash"
unfolding merge merge_simple merge_sources adds_source add_sources get_sources has_source get_source
    is_tainted sort_texts insert_text join_bars
both_reported = refl

read_back :
    get_property_taint "b"
      (set_property_taint "b" (some (new_simple_taint "window.name" 4)) no_properties)
      false
    ≡ some (simple ("window.name" ∷ []) 4)
unfolding get_property_taint set_property_taint new_simple_taint set_property lookup_property
    is_tainted
read_back = refl
