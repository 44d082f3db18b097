-- ===== src/Proxy/Routing/Normalized.antt =====
-- A run is routed to a normalized URL.
use soma_benchmark.Base.{
  ◌≡◌, refl, sym, ap, Bool, true, false, Option, none, some, List, [], ◌∷◌, ◌++◌, ◌>>=◌, ◌⊎◌, inl,
  inr, Bool-cases, Option-cases, if◌then◌else◌,
}
use mathlib.Core.Option.{some-injective}
use soma_benchmark.Base.Text.{Text, codes, text_eq, strip, is_empty}
use soma_benchmark.Base.Json.{Value, str, obj, Fields, end, field}
use soma_benchmark.Proxy.Upstream.{Url, ends_with_slash, as_directory, set_header}
use soma_benchmark.Proxy.Routing.{
  Environment, getenv, setting, or_text, replace, route_of, default_compression_base_url,
  directory_of, is_absolute, normalize_base_url, resolve_compression_base_url, add_route,
  add_routes, routes_in, resolve_compression_route_map, route_by_template, or_route,
  resolve_compression_base_url_for_run,
}

ends_with_slash-slash : (s : Text) → ends_with_slash (s ++ 47 ∷ []) ≡ true
ends_with_slash-slash [] = refl
ends_with_slash-slash (c ∷ []) = refl
ends_with_slash-slash (c ∷ d ∷ s) = ends_with_slash-slash (d ∷ s)

as_directory_idem : (s : Text) → as_directory (as_directory s) ≡ as_directory s
as_directory_idem s = elim (Bool-cases (ends_with_slash s)) [
  | inl h ↦ rw (h, h) refl
  | inr h ↦ rw (h, ends_with_slash-slash s) refl
]

directory_of_idem : (u : Url) → directory_of (directory_of u) ≡ directory_of u
directory_of_idem u = ap (λ p. record u { path = p; query = [] }) (as_directory_idem u.path)

unless {ℓ} : {A : Type ℓ} {b : Bool} → b ≡ false → (b ≡ true) ⊎ A → A
unless h (inl e) = cc
unless h (inr a) = a

module _ (split : Text → Url) (unsplit : Url → Text) where
  abbrev pub IsAbsolute : Text → Type 0
  IsAbsolute t = is_absolute (split t) ≡ true

  abbrev pub IsNormalized : Text → Type 0
  IsNormalized url = normalize_base_url split unsplit url ≡ some url

  -- The URL that `normalize_base_url` gives is there, and normalized.
  abbrev Normalizes : Option Text → Type 0
  Normalizes o = (url : Text) × (o ≡ some url) × IsNormalized url

  abbrev AreNormalized : List (Text × Text) → Type 0
  AreNormalized [] = Unit
  AreNormalized ((k, url) ∷ routes) = IsNormalized url × AreNormalized routes

  set_header-AreNormalized :
      (k url : Text) (routes : List (Text × Text))
      → IsNormalized url
      → AreNormalized routes
      → AreNormalized (set_header k url routes)
  unfolding set_header
  set_header-AreNormalized k url [] h a = (h, tt)
  set_header-AreNormalized k url ((j, w) ∷ routes) h a = elim (Bool-cases (text_eq j k)) [
    | inl e ↦ rw e (h, a.1)
    | inr e ↦ rw e (a.0, set_header-AreNormalized k url routes h a.1)
  ]

  route_of-IsNormalized :
      (run_id url : Text) (routes : List (Text × Text))
      → AreNormalized routes
      → route_of run_id routes ≡ some url
      → IsNormalized url
  unfolding route_of
  route_of-IsNormalized run_id url [] a h = cc
  route_of-IsNormalized run_id url ((k, w) ∷ routes) a h = elim (Bool-cases (text_eq k run_id)) [
    | inl e ↦ let x : some w ≡ some url = rw e at h in rw (sym (some-injective w url x)) a.0
    | inr e ↦ route_of-IsNormalized run_id url routes a.1 (rw e at h)
  ]

  -- The URL of a value of the map, if it has one, is absolute.
  abbrev pub HasAbsolute : Value → Type 0
  HasAbsolute (str s) = (is_empty (strip (codes s)) ≡ true) ⊎ IsAbsolute (strip (codes s))
  HasAbsolute _ = Unit

  abbrev pub HaveAbsolute : Fields → Type 0
  HaveAbsolute end = Unit
  HaveAbsolute (field k v parsed) = HasAbsolute v × HaveAbsolute parsed

  -- `urlsplit` finds the parts that `urlunsplit` joined to an absolute URL with a path.
  module _
      (rejoins : (t : Text)
        → IsAbsolute t
        → split (unsplit (directory_of (split t))) ≡ directory_of (split t)) where
    normalize_base_url-Normalizes :
        (t : Text) → IsAbsolute t → Normalizes (normalize_base_url split unsplit t)
    unfolding normalize_base_url
    normalize_base_url-Normalizes t h = (
      unsplit (directory_of (split t)),
      rw h refl,
      rw (rejoins t h, h, directory_of_idem (split t)) refl,
    )

    set_route :
        (k : Text) (o : Option Text) (routes : List (Text × Text))
        → Normalizes o
        → AreNormalized routes
        → (r : List (Text × Text)) × ((o >>= λ url. some (set_header k url routes)) ≡ some r)
          × AreNormalized r
    set_route k o routes n a =
        (set_header k n.0 routes, rw n.1 refl, set_header-AreNormalized k n.0 routes n.2 a)

    add_route-AreNormalized :
        (k : Text) (v : Value) (routes : List (Text × Text))
        → HasAbsolute v
        → AreNormalized routes
        → (r : List (Text × Text)) × (add_route split unsplit k v routes ≡ some r) × AreNormalized r
    unfolding add_route
    add_route-AreNormalized [] v routes h a = (routes, refl, a)
    add_route-AreNormalized (c ∷ k) (str s) routes h a =
        elim (Bool-cases (is_empty (strip (codes s)))) [
          | inl e ↦ (routes, rw e refl, a)
          | inr e ↦ rw e (
              set_route (c ∷ k) (normalize_base_url split unsplit (strip (codes s))) routes
                (normalize_base_url-Normalizes (strip (codes s)) (unless e h)) a)
        ]
    add_route-AreNormalized (c ∷ k) Value.null routes h a = (routes, refl, a)
    add_route-AreNormalized (c ∷ k) (Value.bool b) routes h a = (routes, refl, a)
    add_route-AreNormalized (c ∷ k) (Value.int n) routes h a = (routes, refl, a)
    add_route-AreNormalized (c ∷ k) (Value.real r) routes h a = (routes, refl, a)
    add_route-AreNormalized (c ∷ k) (Value.arr vs) routes h a = (routes, refl, a)
    add_route-AreNormalized (c ∷ k) (obj d) routes h a = (routes, refl, a)

    add_routes-AreNormalized :
        (parsed : Fields) (routes : List (Text × Text))
        → HaveAbsolute parsed
        → AreNormalized routes
        → (r : List (Text × Text)) × (add_routes split unsplit parsed routes ≡ some r)
          × AreNormalized r
    unfolding add_routes
    add_routes-AreNormalized end routes h a = (routes, refl, a)
    add_routes-AreNormalized (field k v parsed) routes h a =
        let first = add_route-AreNormalized (strip (codes k)) v routes h.0 a in
        let rest = add_routes-AreNormalized parsed first.0 h.1 first.2 in
        (rest.0, rw first.1 rest.1, rest.2)

    module _ (loads : Text → Option Value) (env : Environment) where
      -- The map of the routes is empty, or a JSON object with absolute URLs.
      abbrev pub HasRoutes : Type 0
      HasRoutes =
          let raw = setting env "PROXY_COMPRESSION_ROUTE_MAP" in
          (is_empty raw ≡ true)
          ⊎ ((parsed : Fields) × (loads raw ≡ some (obj parsed)) × HaveAbsolute parsed)

      -- A template, if there is one, gives an absolute URL.
      abbrev pub HasTemplate : Text → Type 0
      HasTemplate run_id =
          let template = setting env "PROXY_COMPRESSION_BASE_URL_TEMPLATE" in
          (is_empty template ≡ true) ⊎ IsAbsolute (replace (codes "{run_id}") run_id template)

      abbrev pub HasBase : Type 0
      HasBase = IsAbsolute (
          or_text (strip (getenv env "PROXY_COMPRESSION_BASE_URL" default_compression_base_url))
            default_compression_base_url)

      resolve_compression_route_map-AreNormalized :
          HasRoutes
          → (r : List (Text × Text)) × (resolve_compression_route_map split unsplit loads env
              ≡ some r)
            × AreNormalized r
      unfolding resolve_compression_route_map routes_in
      resolve_compression_route_map-AreNormalized h =
          elim (Bool-cases (is_empty (setting env "PROXY_COMPRESSION_ROUTE_MAP"))) [
            | inl e ↦ ([], rw e refl, tt)
            | inr e ↦
                let m = unless e h in
                let r = add_routes-AreNormalized m.0 [] m.2 tt in (r.0, rw (e, m.1) r.1, r.2)
          ]

      route_by_template-Normalizes :
          (run_id : Text)
          → HasTemplate run_id
          → HasBase
          → Normalizes (route_by_template split unsplit env run_id)
      unfolding route_by_template resolve_compression_base_url
      route_by_template-Normalizes [] h b = normalize_base_url-Normalizes _ b
      route_by_template-Normalizes (c ∷ run_id) h b =
          elim (Bool-cases (is_empty (setting env "PROXY_COMPRESSION_BASE_URL_TEMPLATE"))) [
            | inl e ↦ rw e (normalize_base_url-Normalizes _ b)
            | inr e ↦ rw e (normalize_base_url-Normalizes _ (unless e h))
          ]

      routed :
          (run_id : Text) (routes : List (Text × Text)) (other : Option Text)
          → AreNormalized routes
          → Normalizes other
          → Normalizes (or_route (if is_empty run_id then none else route_of run_id routes) other)
      routed [] routes other a n = n
      routed (c ∷ run_id) routes other a n = elim (Option-cases (route_of (c ∷ run_id) routes)) [
        | inl e ↦ rw e n
        | inr (url, e) ↦ (url, rw e refl, route_of-IsNormalized (c ∷ run_id) url routes a e)
      ]

      -- If `urlsplit` finds the parts that `urlunsplit` joined, the route map is empty or an object whose
      -- strings are blank or absolute URLs, the template is empty or gives an absolute URL for the run, and
      -- the base URL or its default is absolute, then the run is routed to a URL, and
      -- `_normalize_base_url` leaves that URL as it is.
      pub resolve_compression_base_url_for_run-IsNormalized :
          (run_id : Text)
          → HasRoutes
          → HasTemplate run_id
          → HasBase
          → (url : Text) × (resolve_compression_base_url_for_run split unsplit loads env run_id
              ≡ some url)
            × IsNormalized url
      unfolding resolve_compression_base_url_for_run
      resolve_compression_base_url_for_run-IsNormalized run_id h t b =
          let m = resolve_compression_route_map-AreNormalized h in
          rw m.1 (routed run_id m.0 _ m.2 (route_by_template-Normalizes run_id t b))
