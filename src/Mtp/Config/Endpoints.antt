-- ===== src/Mtp/Config/Endpoints.antt =====
-- `MTP.Config.endpoints` of src/td/mtp.py: the endpoints of a data centre by address and protocol.
use opentele.Prelude.{
  ◌/◌, ◌≡◌, refl, sym, ap, ◌∙◌, Bool, true, false, List, [], ◌∷◌, ◌++◌, ◌||◌, not, ◌==◌, All,
  append_assoc, append-nil, arith, Bool-cases, inl, inr, if◌then◌else◌,
}
use opentele.Prelude.Int.{ℤ, pos, mask, ◌==ℤ◌, ==ℤ→eq}
use opentele.Exception.{Result, ok, err, key_error, ok-injective, ◌>>=◌}
use opentele.Mtp.{Endpoint}
use opentele.Mtp.Keyed.{IsKeyed, IsOwned}
use opentele.Mtp.Config.{Config}

-- The results, by address and by protocol
pub record Results : Type 0 where
  pub ipv4_tcp : List Endpoint
  pub ipv4_http : List Endpoint
  pub ipv6_tcp : List Endpoint
  pub ipv6_http : List Endpoint

abbrev pub no_results : Results
no_results = record { ipv4_tcp = []; ipv4_http = []; ipv6_tcp = []; ipv6_http = [] }

-- `flags & Flag.f_ipv6`
unfoldable pub has_ipv6 : Endpoint → Bool
has_ipv6 e = mask e.flags 2 == 1

-- `flags & (Flag.f_tcpo_only | Flag.f_secret)`
unfoldable pub is_tcp_only : Endpoint → Bool
is_tcp_only e = mask e.flags 8 / 4 == 1 || mask e.flags 2048 / 1024 == 1

unfoldable pub add_tcp : Endpoint → Results → Results
unfolding has_ipv6
add_tcp e r =
    if has_ipv6 e
    then record r { ipv6_tcp = r.ipv6_tcp ++ e ∷ [] }
    else record r { ipv4_tcp = r.ipv4_tcp ++ e ∷ [] }

unfoldable pub add_http : Endpoint → Results → Results
unfolding has_ipv6
add_http e r =
    if has_ipv6 e
    then record r { ipv6_http = r.ipv6_http ++ e ∷ [] }
    else record r { ipv4_http = r.ipv4_http ++ e ∷ [] }

-- A round of the loop
unfoldable pub sort_endpoint : ℤ → Endpoint → Results → Results
unfolding add_tcp add_http is_tcp_only
sort_endpoint dc_id e r =
    if dc_id ==ℤ pos 0 || e.id ==ℤ dc_id
    then (if is_tcp_only e then add_tcp e r else add_http e (add_tcp e r))
    else r

unfoldable pub sort_endpoints : ℤ → List Endpoint → Results → Results
unfolding sort_endpoint
sort_endpoints dc_id [] r = r
sort_endpoints dc_id (e ∷ es) r = sort_endpoints dc_id es (sort_endpoint dc_id e r)

-- `_data[dcId]`
unfoldable pub lookup_centre : ℤ → List (ℤ × List Endpoint) → Result (List Endpoint)
lookup_centre dc_id [] = err key_error
lookup_centre dc_id ((key, es) ∷ rest) = if key ==ℤ dc_id then ok es else lookup_centre dc_id rest

-- `endpoints(dcId)`
unfoldable pub endpoints : Config → ℤ → Result Results
unfolding lookup_centre sort_endpoints
endpoints c dc_id = do
  es ← lookup_centre dc_id c.dc_options.centres
  ok (sort_endpoints dc_id es no_results)

-- The elements that pass a test, in their order.
abbrev pub filter : (Endpoint → Bool) → List Endpoint → List Endpoint
filter p [] = []
filter p (e ∷ es) = if p e then e ∷ filter p es else filter p es

abbrev pub both : Results → Results → Results
both a b = record {
  ipv4_tcp = a.ipv4_tcp ++ b.ipv4_tcp;
  ipv4_http = a.ipv4_http ++ b.ipv4_http;
  ipv6_tcp = a.ipv6_tcp ++ b.ipv6_tcp;
  ipv6_http = a.ipv6_http ++ b.ipv6_http;
}

-- The endpoints by what their flags say.
abbrev pub by_flags : List Endpoint → Results
by_flags es = record {
  ipv4_tcp = filter (λ e. not (has_ipv6 e)) es;
  ipv4_http = filter (λ e. not (is_tcp_only e)) (filter (λ e. not (has_ipv6 e)) es);
  ipv6_tcp = filter has_ipv6 es;
  ipv6_http = filter (λ e. not (is_tcp_only e)) (filter has_ipv6 es);
}

own_test : (a b : ℤ) → a ≡ b → (b ==ℤ pos 0 || a ==ℤ b) ≡ true
own_test a b h = ground arith

both-nil : (r : Results) → both r no_results ≡ r
both-nil r = simp append-nil

tcp-by_flags :
    (e : Endpoint) (es : List Endpoint) (r : Results) (six only : Bool)
    → has_ipv6 e ≡ six
    → is_tcp_only e ≡ only
    → both (if is_tcp_only e then add_tcp e r else add_http e (add_tcp e r)) (by_flags es)
      ≡ both r (by_flags (e ∷ es))
unfolding add_tcp add_http
tcp-by_flags e es r true true h k = simp (h, k, append_assoc)
tcp-by_flags e es r true false h k = simp (h, k, append_assoc)
tcp-by_flags e es r false true h k = simp (h, k, append_assoc)
tcp-by_flags e es r false false h k = simp (h, k, append_assoc)

step-by_flags :
    (dc_id : ℤ) (e : Endpoint) (es : List Endpoint) (r : Results)
    → e.id ≡ dc_id
    → both (sort_endpoint dc_id e r) (by_flags es) ≡ both r (by_flags (e ∷ es))
unfolding sort_endpoint
step-by_flags dc_id e es r own =
    rw (own_test e.id dc_id own) (tcp-by_flags e es r (has_ipv6 e) (is_tcp_only e) refl refl)

sort_endpoints-by_flags :
    (dc_id : ℤ) (es : List Endpoint) (r : Results)
    → All (IsOwned dc_id) es
    → sort_endpoints dc_id es r ≡ both r (by_flags es)
unfolding sort_endpoints
sort_endpoints-by_flags dc_id [] r h = sym (both-nil r)
sort_endpoints-by_flags dc_id (e ∷ es) r h =
    sort_endpoints-by_flags dc_id es (sort_endpoint dc_id e r) h.1
    ∙ step-by_flags dc_id e es r h.0.0

lookup_centre-IsOwned :
    (dc_id : ℤ) (centres : List (ℤ × List Endpoint)) (es : List Endpoint)
    → IsKeyed centres
    → lookup_centre dc_id centres ≡ ok es
    → All (IsOwned dc_id) es
unfolding lookup_centre
lookup_centre-IsOwned dc_id [] es h e = cc
lookup_centre-IsOwned dc_id ((key, own) ∷ rest) es h e = elim (Bool-cases (key ==ℤ dc_id)) [
  | inl same ↦ rw (← ==ℤ→eq key dc_id same, ← ok-injective (rw same at e)) h.0
  | inr other_key ↦ lookup_centre-IsOwned dc_id rest es h.2 (rw other_key at e)
]

-- Where every data centre stands once with its own endpoints, those of a data centre that is there
-- are sorted by the flags: IPv6 or IPv4 by one of them, and under Http the ones of each address
-- that are neither for TCP only nor secret, in their order.
pub endpoints-by_flags :
    (c : Config) (dc_id : ℤ) (es : List Endpoint)
    → IsKeyed c.dc_options.centres
    → lookup_centre dc_id c.dc_options.centres ≡ ok es
    → endpoints c dc_id ≡ ok (by_flags es)
unfolding endpoints
endpoints-by_flags c dc_id es h e =
    rw e
      (ap ok (sort_endpoints-by_flags dc_id es no_results (lookup_centre-IsOwned dc_id _ es h e)))
