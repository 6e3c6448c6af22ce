-- ===== src/Discovery/Normal.antt =====
-- What normalizeAndValidate of internal/discovery/engine.go lets through.
use Prim.Native.String.{String}
use text.Mathlib.Text.{◌==◌ as str_eq}
use scalpel_cli.Common.{
  ◌≡◌, refl, sym, ap, ◌∙◌, subst, true, false, ◌||◌, some, inl, inr, arith, Bool-cases,
  Option-cases,
}
use scalpel_cli.Discovery.{
  Url, Net, Scope, is_scoped, is_in_scope, is_ignored, normal, validated, validated_if, absolute_if,
  without_fragment, normalize_and_validate,
}

-- A host in scope has no port left after it was taken off.
abbrev pub StableHosts : Net → Scope → Type 0
StableHosts net s =
    (h : String)
    → is_scoped s (net.hostname h) ≡ true
    → net.hostname (net.hostname h) ≡ net.hostname h

-- A URL of the web in scope, without fragment and with a path, that is no static asset.
pub record IsNormal (net : Net) (s : Scope) (u : Url) : Type 0 where
  pub web : (str_eq u.scheme "http" || str_eq u.scheme "https") ≡ true
  pub in_scope : is_in_scope net s u ≡ true
  pub no_fragment : u.fragment ≡ ""
  pub has_path : str_eq u.path "" ≡ false
  pub kept : is_ignored (net.extension u.path) ≡ false

module _ (net : Net) (s : Scope) (stable : StableHosts net s) where
  normal_host :
      (u : Url)
      → is_in_scope net s u ≡ true
      → net.hostname (normal net u).host ≡ net.hostname u.host
  unfolding normal
  normal_host u h = ground (arith, stable u.host h)

  normal_path : (u : Url) → str_eq (normal net u).path "" ≡ false
  unfolding normal
  normal_path u = elim (Bool-cases (str_eq u.path "")) [ inl e ↦ rw (e) refl | inr e ↦ rw (e) e ]

  normal_web :
      (u : Url)
      → (str_eq u.scheme "http" || str_eq u.scheme "https") ≡ true
      → (str_eq (normal net u).scheme "http" || str_eq (normal net u).scheme "https") ≡ true
  unfolding normal
  normal_web u w = w

  normal_fragment : (u : Url) → u.fragment ≡ "" → (normal net u).fragment ≡ ""
  unfolding normal
  normal_fragment u f = f

  validated-IsNormal : (u v : Url) → u.fragment ≡ "" → validated net s u ≡ some v → IsNormal net s v
  unfolding validated
  validated-IsNormal u v f e =
      elim (Bool-cases (str_eq u.scheme "http" || str_eq u.scheme "https")) [
        | inr w ↦ absurd (ground (arith, e, w))
        | inl w ↦ elim (Bool-cases (is_in_scope net s u)) [
          | inr i ↦ absurd (ground (arith, e, w, i))
          | inl i ↦ elim (Bool-cases (is_ignored (net.extension (normal net u).path))) [
            | inl g ↦ absurd (ground (arith, e, w, i, g))
            | inr g ↦
                let same : normal net u ≡ v = ground (arith, e, w, i, g) in
                subst (λ x. IsNormal net s x) same
                  (record {
                    web = normal_web u w;
                    in_scope = ap (is_scoped s) (normal_host u i) ∙ i;
                    no_fragment = normal_fragment u f;
                    has_path = normal_path u;
                    kept = g;
                  })
          ]
        ]
      ]

  -- Where no host in scope has a port after it was taken off, every URL that normalizeAndValidate
  -- accepts is one of http or https in scope, without a fragment and with a path, and no static
  -- asset.
  pub accepted-IsNormal :
      (raw base : String) (v : Url)
      → normalize_and_validate net s raw base ≡ some v
      → IsNormal net s v
  unfolding normalize_and_validate
  accepted-IsNormal raw base v e = elim (Option-cases (absolute_if net base (net.parse raw))) [
    | inl n ↦ absurd (ground (arith, sym (ap (λ o. validated_if net s o) n) ∙ e))
    | inr (u, h) ↦
        validated-IsNormal (without_fragment u) v refl (sym (ap (λ o. validated_if net s o) h) ∙ e)
  ]
