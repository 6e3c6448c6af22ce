-- ===== src/HttpClient/Redirects/Safety.antt =====
-- What a redirect keeps of a request, and what it leaves out.
use Prim.Native.String.{String}
use text.Mathlib.Text.{◌==◌ as str_eq}
use text.Mathlib.TextEquality.{eq_iff}
use scalpel_cli.Common.{
  ℕ, ◌≡◌, ◌≢◌, refl, ◌↔◌, ap, ◌⊎◌, inl, inr, Bool, true, false, ◌&&◌, List, [], ◌∷◌, some, arith,
  Bool-cases, Sum-cases, All,
}
use scalpel_cli.Common.Int.{ℤ}
use scalpel_cli.Common.Dict.{insert}
use scalpel_cli.Http2.Types.{BodySource, reads}
use scalpel_cli.Http2.Calls.{lacks_get_body, read_body}
use scalpel_cli.Http2.Types.{ok}
use scalpel_cli.HttpClient.Types.{Url, Header, HttpRequest, Net, header_set}
use scalpel_cli.HttpClient.Redirects.{
  effective_port, is_same_origin, next_body, keeps_header, copy_headers, add_referer, with_body,
  prepare_next_request,
}

-- The origin of a URL: the scheme, the host and the port, which a known scheme gives by default.
abbrev pub Origin : Type 0
Origin = String × String × String

abbrev pub origin : Url → Origin
origin u = (u.scheme, u.hostname, effective_port u)

-- `isSameOrigin` compares the origins.
pub is_same_origin_iff :
    (u v : Url) → (is_same_origin (some u) (some v) ≡ true) ↔ (origin u ≡ origin v)
unfolding is_same_origin
is_same_origin_iff u v = (
  λ h. ground (
    arith,
    eq_iff u.scheme v.scheme,
    eq_iff u.hostname v.hostname,
    eq_iff (effective_port u) (effective_port v),
  ),
  λ h.
      let a : u.scheme ≡ v.scheme = ap (λ (o : Origin). o.0) h in
      let b : u.hostname ≡ v.hostname = ap (λ (o : Origin). o.1) h in
      let c : effective_port u ≡ effective_port v = ap (λ (o : Origin). o.2) h in
      ground (
        arith,
        a,
        b,
        c,
        eq_iff u.scheme v.scheme,
        eq_iff u.hostname v.hostname,
        eq_iff (effective_port u) (effective_port v),
      ),
)

-- Every header of a list has a key with a property.
abbrev pub AllKeys : (String → Type 0) → Header → Type 0
AllKeys P h = All (λ (e : String × List String). P e.0) h

copy_headers-AllKeys :
    (keep : String → Bool) (h : Header) → AllKeys (λ k. keep k ≡ true) (copy_headers keep h)
unfolding copy_headers
copy_headers-AllKeys keep [] = tt
copy_headers-AllKeys keep ((k, vs) ∷ h) = elim (Bool-cases (keep k)) [
  | inl e ↦ rw e (e, copy_headers-AllKeys keep h)
  | inr e ↦ rw e (copy_headers-AllKeys keep h)
]

insert-AllKeys :
    (P : String → Type 0) (k : String) (vs : List String) (h : Header)
    → P k
    → AllKeys P h
    → AllKeys P (insert k vs h)
unfolding insert
insert-AllKeys P k vs [] p a = (p, tt)
insert-AllKeys P k vs ((j, w) ∷ h) p a = elim (Bool-cases (str_eq j k)) [
  | inl e ↦ rw e (p, a.1)
  | inr e ↦ rw e (a.0, insert-AllKeys P k vs h p a.1)
]

-- A header that a redirect to another origin must not carry.
abbrev pub IsPublic : Net → String → Type 0
IsPublic net k =
    (net.lower k ≢ "authorization")
    × (net.lower k ≢ "proxy-authorization")
    × (net.lower k ≢ "cookie")
    × (net.lower k ≢ "host")
    × (net.lower k ≢ "content-length")

ne : (s t : String) → str_eq s t ≡ false → s ≢ t
ne s t h = ground (arith, eq_iff s t)

module _ (net : Net) where
  kept-IsPublic :
      (method : String) (no_body : Bool) (k : String)
      → keeps_header net method no_body true k ≡ true
      → IsPublic net k
  unfolding keeps_header
  kept-IsPublic method no_body k h =
      let l = net.lower k in
      ground (
        arith,
        eq_iff l "authorization",
        eq_iff l "proxy-authorization",
        eq_iff l "cookie",
        eq_iff l "host",
        eq_iff l "content-length",
      )

  AllKeys-mono :
      (P Q : String → Type 0) (h : Header) → ((k : String) → P k → Q k) → AllKeys P h → AllKeys Q h
  AllKeys-mono P Q [] f a = tt
  AllKeys-mono P Q ((k, vs) ∷ h) f a = (f k a.0, AllKeys-mono P Q h f a.1)

  differs : (u v : Url) → origin u ≢ origin v → is_same_origin (some u) (some v) ≡ false
  differs u v h = elim (Bool-cases (is_same_origin (some u) (some v))) [
    | inl e ↦ absurd (h ((is_same_origin_iff u v).0 e))
    | inr e ↦ e
  ]

  with_body-IsPublic :
      (r : HttpRequest) (next : Url) (b : String × BodySource × ℤ)
      → net.lower "Referer" ≡ "referer"
      → is_same_origin (some r.url) (some next) ≡ false
      → AllKeys (IsPublic net) (with_body net r next b).header
  unfolding with_body add_referer header_set
  with_body-IsPublic r next (method, source, n) h o =
      let kept =
        AllKeys-mono _ (IsPublic net) _ (kept-IsPublic method (lacks_get_body source))
          (copy_headers-AllKeys (keeps_header net method (lacks_get_body source) true) r.header) in
      let added =
        insert-AllKeys (IsPublic net) "Referer" (net.referer r.url ∷ []) _
          (rw h (
            ne "referer" "authorization" refl,
            ne "referer" "proxy-authorization" refl,
            ne "referer" "cookie" refl,
            ne "referer" "host" refl,
            ne "referer" "content-length" refl,
          ))
          kept in
      elim (Bool-cases (str_eq r.url.scheme "https" && str_eq next.scheme "http")) [
        | inl e ↦ rw (e, o) kept
        | inr e ↦ rw (e, o) added
      ]

  -- What a successful `prepareNextRequest` returns.
  pub prepared :
      (r r' : HttpRequest) (next : Url) (status : ℕ)
      → prepare_next_request net r next status ≡ inr r'
      → (b : String × BodySource × ℤ) × (next_body status r ≡ inr b) × (with_body net r next b ≡ r')
  unfolding prepare_next_request
  prepared r r' next status h = elim (Sum-cases (next_body status r)) [
    | inl (e, q) ↦ absurd (let h' = rw (q, prepare_next_request) at h in ground arith)
    | inr ((m, source, n), q) ↦
        ((m, source, n), q, let h' = rw (q, prepare_next_request) at h in ground arith)
  ]

  -- A redirect to another origin (a scheme, host or port that differs) carries no credentials: none of
  -- the new request's headers is Authorization, Proxy-Authorization or Cookie, in any case of letters,
  -- nor Host or Content-Length, whatever the status and the headers of the request before.
  pub redirect-IsPublic :
      (r r' : HttpRequest) (next : Url) (status : ℕ)
      → net.lower "Referer" ≡ "referer"
      → origin r.url ≢ origin next
      → prepare_next_request net r next status ≡ inr r'
      → AllKeys (IsPublic net) r'.header
  redirect-IsPublic r r' next status h o e =
      let (b, _, q) = prepared r r' next status e in
      rw (← q) (with_body-IsPublic r next b h (differs r.url next o))

  -- A 307 or 308 redirect of a request whose `GetBody` gives bytes keeps the method and the content
  -- length, but the new request has a nil body, so that the HTTP/2 client reads no bytes for it.
  pub redirected_body_lost :
      (r r' : HttpRequest) (next : Url) (status : ℕ) (bytes : List ℕ) (fails : Bool)
      → (status ≡ 307) ⊎ (status ≡ 308)
      → r.body_source ≡ reads bytes fails
      → prepare_next_request net r next status ≡ inr r'
      → (r'.method ≡ r.method)
        × (r'.content_length ≡ r.content_length)
        × (read_body r'.has_body r'.body_source ≡ ok [])
  unfolding next_body with_body read_body
  redirected_body_lost r r' next status bytes fails s b e =
      let (x, p, q) = prepared r r' next status e in
      let known : next_body status r ≡ inr (r.method, r.body_source, r.content_length) =
        ground arith in
      let same : x ≡ (r.method, r.body_source, r.content_length) = ground (arith, p, known) in
      rw (← q) (
        ap (λ (t : String × BodySource × ℤ). t.0) same,
        ap (λ (t : String × BodySource × ℤ). t.2) same,
        refl,
      )
