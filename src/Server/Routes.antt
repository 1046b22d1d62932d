-- ===== src/Server/Routes.antt =====
-- Which handler a request reaches, and with what it is answered.
use openwrt_sub_converter.Common.{
  false, [], ◌∷◌, ◌++◌, ◌≡◌, ◌≢◌, ◌⊎◌, inl, inr, refl, sym, subst, ap, arith, Bytes, Lacks, codes,
  true, c_str, ◌∙◌, equal, equal_iff, if◌then◌else◌, Bool-cases, done,
}
use openwrt_sub_converter.Buffer.{Buffer}
use openwrt_sub_converter.Server.{
  Services, Connection, Response, Answer, send_response, method_not_allowed, json_type, handle_root,
  handle_health, handle_convert, handle_convert_manual, path_of, route_request,
}

path_of-append :
    (path query : Bytes) → Lacks b'?' path → path_of (path ++ b'?' ∷ query) ≡ path_of path
unfolding path_of
path_of-append [] query h = refl
path_of-append (c ∷ path) query h = let ih = path_of-append path query h.1 in rw ih refl

-- The query behind the path has no part in the routing.
pub route_request-query :
    (s : Services) (con : Connection) (path query method : Bytes) (sb : Buffer)
    → Lacks b'?' path
    → route_request s con (path ++ b'?' ∷ query) method sb ≡ route_request s con path method sb
unfolding route_request
route_request-query s con path query method sb h = rw (path_of-append path query h) refl

path_of-Lacks : (path : Bytes) → Lacks b'?' path → path_of path ≡ path
unfolding path_of
path_of-Lacks [] h = refl
path_of-Lacks (c ∷ path) h = let ih = path_of-Lacks path h.1 in let n = h.0 in ground arith

-- The method that a path takes.
abbrev allowed : Bytes → Bytes
allowed path = if equal path (codes "/convert/manual") then codes "POST" else codes "GET"

module _ (s : Services) (con : Connection) (method : Bytes) (sb : Buffer) where
  wrong_root :
      equal method (codes "GET") ≡ false → handle_root s con method ≡ method_not_allowed con
  unfolding handle_root
  wrong_root e = rw e refl

  wrong_health :
      equal method (codes "GET") ≡ false → handle_health s con method ≡ method_not_allowed con
  unfolding handle_health
  wrong_health e = rw e refl

  wrong_convert :
      equal method (codes "GET") ≡ false
      → handle_convert s con method ≡ done (method_not_allowed con)
  unfolding handle_convert
  wrong_convert e = rw e refl

  wrong_manual :
      equal method (codes "POST") ≡ false
      → handle_convert_manual s con method sb ≡ method_not_allowed con
  unfolding handle_convert_manual
  wrong_manual e = rw e refl

abbrev pub IsRoute : Bytes → Type 0
IsRoute path =
    (path ≡ codes "/")
    ⊎ ((path ≡ codes "/health") ⊎ ((path ≡ codes "/convert") ⊎ (path ≡ codes "/convert/manual")))

equal-ne : (s t : Bytes) → s ≢ t → equal s t ≡ false
equal-ne s t h = elim (Bool-cases (equal s t)) [
  | inl e ↦ absurd (h ((equal_iff s t).0 e))
  | inr e ↦ e
]

route_request_wrong_method :
    (s : Services) (con : Connection) (path method : Bytes) (sb : Buffer)
    → IsRoute path
    → method ≢ allowed path
    → route_request s con path method sb ≡ done (method_not_allowed con)
unfolding route_request path_of equal
route_request_wrong_method s con path method sb (inl e) h =
    subst (λ p. route_request s con p method sb ≡ done (method_not_allowed con)) (sym e)
      (ap done (
        wrong_root s con method sb
          (equal-ne method (codes "GET") (subst (λ p. method ≢ allowed p) e h))))
route_request_wrong_method s con path method sb (inr (inl e)) h =
    subst (λ p. route_request s con p method sb ≡ done (method_not_allowed con)) (sym e)
      (ap done (
        wrong_health s con method sb
          (equal-ne method (codes "GET") (subst (λ p. method ≢ allowed p) e h))))
route_request_wrong_method s con path method sb (inr (inr (inl e))) h =
    subst (λ p. route_request s con p method sb ≡ done (method_not_allowed con)) (sym e)
      (wrong_convert s con method sb
        (equal-ne method (codes "GET") (subst (λ p. method ≢ allowed p) e h)))
route_request_wrong_method s con path method sb (inr (inr (inr e))) h =
    subst (λ p. route_request s con p method sb ≡ done (method_not_allowed con)) (sym e)
      (ap done (
        wrong_manual s con method sb
          (equal-ne method (codes "POST") (subst (λ p. method ≢ allowed p) e h))))

route_request_unknown :
    (s : Services) (con : Connection) (path method : Bytes) (sb : Buffer)
    → Lacks b'?' path
    → ¬ IsRoute path
    → route_request s con path method sb
      ≡ done (
          send_response con 404 json_type
            (codes "{\"error\":\"not found\",\"code\":\"not_found\"}"))
unfolding route_request
route_request_unknown s con path method sb h n =
    rw
      (
        path_of-Lacks path h,
        equal-ne path (codes "/") (λ e. n (inl e)),
        equal-ne path (codes "/health") (λ e. n (inr (inl e))),
        equal-ne path (codes "/convert") (λ e. n (inr (inr (inl e)))),
        equal-ne path (codes "/convert/manual") (λ e. n (inr (inr (inr e)))),
      )
      refl

-- The requests that the server serves.
abbrev pub IsEndpoint : Bytes → Bytes → Type 0
IsEndpoint path method =
    ((path ≡ codes "/") × (method ≡ codes "GET"))
    ⊎ (((path ≡ codes "/health") × (method ≡ codes "GET"))
        ⊎ (((path ≡ codes "/convert") × (method ≡ codes "GET"))
            ⊎ ((path ≡ codes "/convert/manual") × (method ≡ codes "POST"))))

-- A URL with the path, and a query behind it or none.
abbrev pub HasPath : Bytes → Bytes → Type 0
HasPath path url =
    Lacks b'?' path × ((url ≡ path) ⊎ ((query : Bytes) × (url ≡ path ++ b'?' ∷ query)))

-- The response to a request that is not served.
pub record IsRefusal (path : Bytes) (r : Response) : Type 0 where
  pub reason :
      (IsRoute path
        × (r.status ≡ 405)
        × (r.body ≡ codes "{\"error\":\"method not allowed\",\"code\":\"method_not_allowed\"}"))
      ⊎ ((¬ IsRoute path)
          × (r.status ≡ 404)
          × (r.body ≡ codes "{\"error\":\"not found\",\"code\":\"not_found\"}"))
  pub content_type : r.content_type ≡ codes "application/json"

-- Is the path a route?
IsRoute-cases : (path : Bytes) → IsRoute path ⊎ (¬ IsRoute path)
IsRoute-cases path = elim (Bool-cases (equal path (codes "/"))) [
  | inl e ↦ inl (inl ((equal_iff _ _).0 e))
  | inr n0 ↦ elim (Bool-cases (equal path (codes "/health"))) [
    | inl e ↦ inl (inr (inl ((equal_iff _ _).0 e)))
    | inr n1 ↦ elim (Bool-cases (equal path (codes "/convert"))) [
      | inl e ↦ inl (inr (inr (inl ((equal_iff _ _).0 e))))
      | inr n2 ↦ elim (Bool-cases (equal path (codes "/convert/manual"))) [
        | inl e ↦ inl (inr (inr (inr ((equal_iff _ _).0 e))))
        | inr n3 ↦ inr (not_any n0 n1 n2 n3)
      ]
    ]
  ]
]
  where
    not_equal : (t : Bytes) → equal path t ≡ false → path ≢ t
    not_equal t n e = let y : (equal path t ≡ true) = (equal_iff path t).1 e in cc

    not_any :
        equal path (codes "/") ≡ false
        → equal path (codes "/health") ≡ false
        → equal path (codes "/convert") ≡ false
        → equal path (codes "/convert/manual") ≡ false
        → ¬ IsRoute path
    not_any n0 n1 n2 n3 (inl e) = not_equal _ n0 e
    not_any n0 n1 n2 n3 (inr (inl e)) = not_equal _ n1 e
    not_any n0 n1 n2 n3 (inr (inr (inl e))) = not_equal _ n2 e
    not_any n0 n1 n2 n3 (inr (inr (inr e))) = not_equal _ n3 e

not_allowed :
    (path method : Bytes) → IsRoute path → ¬ IsEndpoint path method → method ≢ allowed path
unfolding equal
not_allowed path method (inl e) h m = h (inl (e, subst (λ p. method ≡ allowed p) e m))
not_allowed path method (inr (inl e)) h m = h (inr (inl (e, subst (λ p. method ≡ allowed p) e m)))
not_allowed path method (inr (inr (inl e))) h m =
    h (inr (inr (inl (e, subst (λ p. method ≡ allowed p) e m))))
not_allowed path method (inr (inr (inr e))) h m =
    h (inr (inr (inr (e, subst (λ p. method ≡ allowed p) e m))))

route_request-path :
    (s : Services) (con : Connection) (path url method : Bytes) (sb : Buffer)
    → HasPath path url
    → route_request s con url method sb ≡ route_request s con path method sb
route_request-path s con path url method sb (h, inl e) = ap (λ u. route_request s con u method sb) e
route_request-path s con path url method sb (h, inr (query, e)) =
    ap (λ u. route_request s con u method sb) e ∙ route_request-query s con path query method sb h

abbrev refusal_405 : Response
refusal_405 = record {
  status = 405;
  content_type = codes "application/json";
  body = codes "{\"error\":\"method not allowed\",\"code\":\"method_not_allowed\"}";
}

abbrev refusal_404 : Response
refusal_404 = record {
  status = 404;
  content_type = codes "application/json";
  body = codes "{\"error\":\"not found\",\"code\":\"not_found\"}";
}

method_not_allowed-sends :
    (con : Connection)
    → ((body : Bytes) → con.creates body ≡ true)
    → method_not_allowed con ≡ Answer.queued refusal_405 (con.queues refusal_405)
unfolding method_not_allowed send_response c_str
method_not_allowed-sends con h =
    ap (λ b. if b then Answer.queued refusal_405 (con.queues refusal_405) else Answer.unsent) (h _)

not_found-sends :
    (con : Connection)
    → ((body : Bytes) → con.creates body ≡ true)
    → send_response con 404 json_type (codes "{\"error\":\"not found\",\"code\":\"not_found\"}")
      ≡ Answer.queued refusal_404 (con.queues refusal_404)
unfolding send_response c_str
not_found-sends con h =
    ap (λ b. if b then Answer.queued refusal_404 (con.queues refusal_404) else Answer.unsent) (h _)

-- A request that is none of the endpoints, with or without a query behind its path, is answered in
-- JSON where libmicrohttpd can make a response: with 405 if its path is one that the server knows,
-- and with 404 otherwise.
pub route_request-IsRefusal :
    (s : Services) (con : Connection) (path url method : Bytes) (sb : Buffer)
    → HasPath path url
    → ¬ IsEndpoint path method
    → ((body : Bytes) → con.creates body ≡ true)
    → (r : Response) × (route_request s con url method sb ≡ done (Answer.queued r (con.queues r)))
      × IsRefusal path r
route_request-IsRefusal s con path url method sb h n creates = elim (IsRoute-cases path) [
  | inl known ↦ (
    refusal_405,
    route_request-path s con path url method sb h
        ∙ route_request_wrong_method s con path method sb known (not_allowed path method known n)
        ∙ ap done (method_not_allowed-sends con creates),
    record { reason = inl (known, refl, refl); content_type = refl },
  )
  | inr unknown ↦ (
    refusal_404,
    route_request-path s con path url method sb h
        ∙ route_request_unknown s con path method sb h.0 unknown
        ∙ ap done (not_found-sends con creates),
    record { reason = inr (unknown, refl, refl); content_type = refl },
  )
]
