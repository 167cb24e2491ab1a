-- ===== src/Telemetry/Requests.antt =====
-- The middleware `request_context` of telemetry.py, around any handler.
use Prim.{absurd}
use azure_ml_optimization_pl.Base.{
  ℕ, zero, suc, ◌≤◌, String, true, ◌≡◌, refl, lookup, lookup-insert_self, some, none, ◌⊎◌, inl, inr,
  Option, [], ◌∷◌, ◌++◌, arith, ap, ◌∙◌, characters,
}
use azure_ml_optimization_pl.Errors.{Error, Result, ok, err}
use azure_ml_optimization_pl.Exec.{Exec}
use azure_ml_optimization_pl.Telemetry.{
  Request, Response, Served, first_characters, or_else, request_id_of, status_of, with_header,
  complete, request_context,
}

first_characters-bound : (n : ℕ) (s : String) → characters (first_characters n s) ≤ n
first_characters-bound zero s = omega arith
first_characters-bound (suc n) String.[] = omega arith
first_characters-bound (suc n) (String.◌∷◌ c s) = omega (arith, first_characters-bound n s)

first_characters_short : (n : ℕ) (s : String) → characters s ≤ n → first_characters n s ≡ s
first_characters_short zero String.[] h = refl
first_characters_short zero (String.◌∷◌ c s) h = absurd (omega (arith, h))
first_characters_short (suc n) String.[] h = refl
first_characters_short (suc n) (String.◌∷◌ c s) h =
    rw (first_characters_short n s (omega (arith, h))) refl

-- What comes back: an exception as it was raised, or the response with its status and with the
-- request's id in its headers.
abbrev pub Answered : String → Result Response → Result Response → Type 0
Answered id (ok response) q =
    (response' : Response) × (q ≡ ok response')
    × (response'.status_code ≡ response.status_code)
    × (lookup "X-Request-ID" response'.headers ≡ some id)
Answered id (err e) q = q ≡ err e

-- The status under which a request is counted and logged: the one of its response, and 500 where the
-- handler raised.
pub data HasStatus : Result Response → ℕ → Type 0 where
  of_response : (response : Response) → HasStatus (ok response) response.status_code
  of_exception : (e : Error) → HasStatus (err e) 500

-- One request, whose handler ended with `r` and left the state `v`; before it the state was `s`.
pub record Observed (request : Request) (uuid : String) (r : Result Response) (v s : Served)
    (q : Result Response) (w : Served) : Type 0 where
  pub bounded : characters (request_id_of request uuid) ≤ 128
  -- An id that the client sent is kept, if it is not longer than that.
  pub given :
      (id : String)
      → request.request_id_header ≡ some id
      → characters id ≤ 128
      → request_id_of request uuid ≡ id
  pub answered : Answered (request_id_of request uuid) r q
  pub status : ℕ
  pub status_right : HasStatus r status
  pub route : String
  pub route_right :
      (request.route_path ≡ some route) ⊎ ((request.route_path ≡ none) × (route ≡ "unmatched"))
  pub counted :
      w.counts ≡ v.counts ++ record { method = request.method; route = route; status = status } ∷ []
  pub logged : w.logged ≡ v.logged ++ status ∷ []
  pub restored : w.request_id ≡ s.request_id

status_of-HasStatus : (r : Result Response) → HasStatus r (status_of r)
status_of-HasStatus (ok response) = HasStatus.of_response response
status_of-HasStatus (err e) = HasStatus.of_exception e

route_lem :
    (o : Option String)
    → (o ≡ some (or_else o "unmatched")) ⊎ ((o ≡ none) × (or_else o "unmatched" ≡ "unmatched"))
route_lem none = inr (refl, refl)
route_lem (some route) = inl refl

with_header-Answered : (id : String) (r : Result Response) → Answered id r (with_header id r)
with_header-Answered id (ok response) =
    (_, refl, refl, lookup-insert_self "X-Request-ID" id response.headers)
with_header-Answered id (err e) = refl

given_id :
    (request : Request) (uuid id : String)
    → request.request_id_header ≡ some id
    → characters id ≤ 128
    → request_id_of request uuid ≡ id
given_id request uuid id given short =
    ap (λ o. first_characters 128 (or_else o uuid)) given ∙ first_characters_short 128 id short

-- With `prometheus_client`, for every handler, whether it returns or raises: the id of a request
-- has at most 128 characters and is the client's where that is not longer; the handler runs under
-- it; a response keeps its status and gets it in the header, an exception is passed on; the request
-- is counted and logged once behind what the handler did, under its route or `unmatched`, with the
-- status of the response, or 500 for an exception; and the context variable has its old value.
pub request_context-Observed :
    (uuid : String) (call_next : Exec Served Response) (request : Request) (s : Served)
    → let (r, v) = call_next (record s { request_id = some (request_id_of request uuid) }) in
      let (q, w) = request_context true uuid call_next request s in Observed request uuid r v s q w
unfolding request_context complete
request_context-Observed uuid call_next request s = record {
  bounded = first_characters-bound 128 (or_else request.request_id_header uuid);
  given = given_id request uuid;
  answered = with_header-Answered _ _;
  status = _;
  status_right = status_of-HasStatus _;
  route = _;
  route_right = route_lem request.route_path;
  counted = refl;
  logged = refl;
  restored = refl;
}
