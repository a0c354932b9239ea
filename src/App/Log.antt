-- ===== src/App/Log.antt =====
-- What `Logger` writes of a request to the server of internal/app/app.go, and what it passes on.
use soa_hw.Base.{str_eq, not, ◌&&◌, ◌≡◌, refl, ap, Bool-cases, inl, inr, ◌∷◌, if◌then◌else◌}
use soa_hw.Middleware.Http.{Request, Served}
use soa_hw.Middleware.Auth.{Identity, Verdict, rejected, accepted}
use soa_hw.Middleware.Logging.{Entry, passed_on, entry_of, body_text, logged_id, logged_body}
use soa_hw.App.Routes.{Endpoint, Found, route, unrouted}
use soa_hw.App.Endpoints.{Config, Body}
use soa_hw.App.Server.{
  Libraries, World, Next, Decoded, malformed, decoded, decoded_by, endpoint, admit, with_auth,
  routed, router, with_log, with_cors, serve_http, tick,
}

module _ {D F J : Type 0} (libs : Libraries D F J) (config : Config) where
  -- The log is left to `Logger`.
  abbrev IsSilent : Next libs config → Type 0
  IsSilent next = (r : Request) (w : World D) → (next r w).1.log ≡ w.log

  decoded_by-log :
      {e : Endpoint} (d : Decoded F e) (who : Identity) (w : World D)
      → (decoded_by libs config d who w).1.log ≡ w.log
  decoded_by-log (malformed e) who w = refl
  decoded_by-log (decoded args) who w = refl

  endpoint-IsSilent : (e : Endpoint) (who : Identity) → IsSilent (endpoint libs config e who)
  unfolding endpoint
  endpoint-IsSilent e who r w = decoded_by-log (libs.decode e r) who w

  admit-log :
      (v : Verdict) (e : Endpoint) (r : Request) (w : World D)
      → (admit libs config v (endpoint libs config e) r w).1.log ≡ w.log
  admit-log (rejected c) e r w = refl
  admit-log (accepted who) e r w = endpoint-IsSilent e who r w

  routed-IsSilent : (f : Found) → IsSilent (routed libs config f)
  unfolding with_auth
  routed-IsSilent (unrouted a) r w = refl
  routed-IsSilent (route t) r w = elim (Bool-cases t.is_protected) [
    | inl inside ↦ rw inside (admit-log _ t.endpoint r (tick libs config w))
    | inr outside ↦ rw outside (endpoint-IsSilent t.endpoint _ r w)
  ]

  -- The line for a request that was served.
  abbrev pub line : Request → World D → Served (Body D F) → Entry
  line r w served = record {
    request_id = libs.env.uuid w.session.step;
    method = r.method;
    endpoint = r.path;
    status_code = served.response.status;
    user_id = logged_id served.log_user;
    request_body = logged_body (body_text libs.json r);
  }

  with_log-line :
      (r : Request) (w : World D)
      → (with_log libs config (router libs config) r w).1.log
        ≡ line r w (with_log libs config (router libs config) r w).0 ∷ w.log
  unfolding with_log router entry_of
  with_log-line r w =
      ap (λ l. line r w (with_log libs config (router libs config) r w).0 ∷ l)
        (routed-IsSilent _ (passed_on r) (tick libs config w))

  -- A request that AllowContentType lets through and whose method is not OPTIONS adds one line to
  -- the log, with its method, its path, the status that is answered, the user in the log context
  -- and the masked body; any other request adds none.
  pub serve_http-log :
      (r : Request) (w : World D)
      → (serve_http libs config r w).1.log ≡ (
          if libs.allow_content_type "application/json" r && not (str_eq r.method "OPTIONS")
          then line r w (serve_http libs config r w).0 ∷ w.log
          else w.log)
  unfolding serve_http with_cors
  serve_http-log r w = elim (Bool-cases (libs.allow_content_type "application/json" r)) [
    | inl allowed ↦ rw allowed (elim (Bool-cases (str_eq r.method "OPTIONS")) [
      | inl asked ↦ rw asked refl
      | inr other ↦ rw other (with_log-line r w)
    ])
    | inr refused ↦ rw refused refl
  ]
