-- ===== src/Http/Gate.antt =====
-- Which requests pass the middleware of simple_network_dashboard/main.py.
use simple_network_dashboard.Prelude.{
  ◌≤◌, String, ◌≡◌, refl, ap, ◌⊎◌, inl, inr, Bool, true, false, not, Option, none, some, arith,
  eq_iff, Bool-cases, Option-cases, if_elim, string_eq, nat_eq, ◌==◌,
}
use simple_network_dashboard.Config.{max_request_body_bytes}
use simple_network_dashboard.SignIn.Store.{
  SessionFile, Returned, value, raised, sessions_of, validate,
}
use simple_network_dashboard.SignIn.Store.Validity.{IsUnique, validate-IsSignedIn, IsSignedIn}
use simple_network_dashboard.Http.{
  Request, Check, is_public_path, is_unsafe, Csrf, csrf_valid, csrf_invalid, csrf_raises,
  compare_tokens, csrf_is_valid, Verdict, csrf_failed, server_error, handled, is_true,
  needs_csrf_cookie, check_csrf, within_limit, session_token_is_valid, protect_http_requests,
  receive,
}
use simple_network_dashboard.Http.Body.{body_size, within_limit_lem}

csrf_valid_lem :
    (cookie header : Option String)
    → csrf_is_valid cookie header ≡ csrf_valid
    → (t : String) × (cookie ≡ some t) × (header ≡ some t) × ((t == "") ≡ false)
unfolding csrf_is_valid compare_tokens
csrf_valid_lem (some c) (some h) e =
    (c, refl, ap some (ground (arith, eq_iff c h)), ground (arith, eq_iff c h))
csrf_valid_lem none h e = cc
csrf_valid_lem (some c) none e = cc

-- the cookie and the header hold one token
pub HasToken : Request → Type 0
HasToken r =
    (t : String) × (r.csrf_cookie ≡ some t) × (r.csrf_header ≡ some t) × ((t == "") ≡ false)

check_csrf-HasToken :
    (r : Request) (b : Bool) → check_csrf r ≡ handled b → is_unsafe r.method ≡ true → HasToken r
unfolding check_csrf HasToken
check_csrf-HasToken r b h u =
    csrf_valid_lem r.csrf_cookie r.csrf_header
      (go (csrf_is_valid r.csrf_cookie r.csrf_header) (rw u at h))
  where
    go :
        (c : Csrf)
        → elim c as (λ x. Verdict) [
          | csrf_valid ↦ handled (needs_csrf_cookie r)
          | csrf_invalid ↦ csrf_failed
          | csrf_raises ↦ server_error
        ]
          ≡ handled b
        → c ≡ csrf_valid
    go csrf_valid e = refl
    go csrf_invalid e = cc
    go csrf_raises e = cc

login_is_public : (path : String) → (path == "/api/auth/login") ≡ true → is_public_path path ≡ true
unfolding is_public_path
login_is_public path h =
    ground (arith, eq_iff path "/api/auth/login", eq_iff "/api/auth/login" path)

module _ (digest : String → String) where
  -- what a request must have to reach the routes
  pub record IsAdmitted (file : SessionFile) (c : Check) (r : Request) : Type 0 where
    pub small : body_size r ≤ max_request_body_bytes
    pub signed_in :
        is_public_path r.path ≡ false
        → (generation : String) × (c.generation ≡ some generation)
          × IsSignedIn digest file r.session_cookie generation c.now
    pub same_tokens :
        is_unsafe r.method ≡ true
        → (is_public_path r.path ≡ false) ⊎ ((r.path == "/api/auth/login") ≡ true)
        → HasToken r

  session_token-IsSignedIn :
      (file : SessionFile) (c : Check) (token : Option String)
      → IsUnique (sessions_of file)
      → (session_token_is_valid digest file c token).1 ≡ true
      → (generation : String) × (c.generation ≡ some generation)
        × IsSignedIn digest file token generation c.now
  unfolding session_token_is_valid is_true
  session_token-IsSignedIn file c token u h = elim (Option-cases c.generation) [
    | inl n ↦ absurd (ground (arith, n))
    | inr (g, e) ↦ (
      g,
      e,
      validate-IsSignedIn digest file c.readable c.ending token g c.now u (
          true_value (validate digest file c.readable c.ending token g c.now).1
            (ground (arith, e))),
    )
  ]
    where
      true_value : (r : Returned Bool) → is_true r ≡ true → r ≡ value true
      true_value (value b) e = ap value e
      true_value raised e = cc

  protect-IsAdmitted :
      (file : SessionFile) (c : Check) (r : Request) (b : Bool)
      → IsUnique (sessions_of file)
      → body_size r ≤ max_request_body_bytes
      → (protect_http_requests digest file c r).1 ≡ handled b
      → IsAdmitted file c r
  unfolding protect_http_requests
  protect-IsAdmitted file c r b u small =
      let P = λ (x : SessionFile × Verdict). x.1 ≡ handled b → IsAdmitted file c r in
      let public = is_public_path r.path in
      let signed_in = (session_token_is_valid digest file c r.session_cookie).1 in
      if_elim P (r.path == "/api/auth/login") _ _
        (λ login h. record {
          small = small;
          signed_in = λ private. absurd (ground (arith, login_is_public r.path login));
          same_tokens = λ unsafe _. check_csrf-HasToken r b h unsafe;
        })
        (λ login.
          if_elim P public _ _
            (λ free h. record {
              small = small;
              signed_in = λ private. absurd (ground (arith, free));
              same_tokens = λ _ e. elim e [
                | inl private ↦ absurd (ground (arith, free))
                | inr l ↦ absurd (ground (arith, login))
              ];
            })
            (λ _.
              if_elim P (not signed_in) _ _ (λ _ h. absurd (ground (arith, h)))
                (λ valid h. record {
                  small = small;
                  signed_in = λ _.
                      session_token-IsSignedIn file c r.session_cookie u (ground (arith, valid));
                  same_tokens = λ unsafe _. check_csrf-HasToken r b h unsafe;
                })))

  -- A request that passes both middlewares has a body of at most 1 MiB, whatever length it
  -- declares. Unless its path is public, its session cookie names a record on file, of the current
  -- generation and not expired; and if its method is unsafe and its path is not public or is that
  -- of the login, its CSRF cookie and header hold one token, which is not empty. This holds however
  -- the session file and its replacement behave, if the file has each digest once.
  pub receive-IsAdmitted :
      (file : SessionFile) (c : Check) (r : Request) (b : Bool)
      → IsUnique (sessions_of file)
      → (receive digest file c r).1 ≡ handled b
      → IsAdmitted file c r
  unfolding receive
  receive-IsAdmitted file c r b u h = elim (Bool-cases (within_limit r)) [
    | inl t ↦
        protect-IsAdmitted file c r b u (ground (arith, t, within_limit_lem r))
          (ground (arith, t, h))
    | inr t ↦ absurd (ground (arith, t, h))
  ]
