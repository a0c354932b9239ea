-- ===== src/App/Buyers.antt =====
-- Who changes orders through the server of internal/app/app.go.
use soa_hw.Base.{◌≡◌, false, refl}
use soa_hw.Middleware.Http.{Request}
use soa_hw.Middleware.Auth.{Identity, nobody}
use soa_hw.Handler.Response.{contains}
use soa_hw.Handler.Orders.{buyers}
use soa_hw.App.Endpoints.{Config}
use soa_hw.App.Server.{Libraries, World, serve_http, tick}
use soa_hw.App.Elsewhere.{Elsewhere, Elsewhere-refl}
use soa_hw.App.Turns.{handle-Apart}
use soa_hw.App.Turns.Served.{IsCaller, IsSafe, serve_http-keeps}

module _ {D F J : Type 0} (libs : Libraries D F J) (config : Config) where
  Elsewhere-IsSafe :
      (who : Identity) → contains buyers who.role ≡ false → IsSafe libs config Elsewhere who
  Elsewhere-IsSafe who outsider e args s =
      handle-Apart libs.env libs.prims libs.floats libs.reparse config args who s outsider

  -- An HTTP request, to whatever path and with whatever body, whose token is not accepted, or is
  -- accepted for a role other than USER and ADMIN, leaves the orders and their items as they were,
  -- every listed product listed, and every promo code as it was.
  pub serve_http-Elsewhere :
      (r : Request) (w : World D)
      → ((who : Identity)
          → IsCaller libs config r (tick libs config w) who
          → contains buyers who.role ≡ false)
      → Elsewhere w.session.db (serve_http libs config r w).1.session.db
  serve_http-Elsewhere r w outsider =
      serve_http-keeps libs config Elsewhere Elsewhere-refl r w (Elsewhere-IsSafe nobody refl)
        λ who caller. Elsewhere-IsSafe who (outsider who caller)
