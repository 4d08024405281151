-- ===== src/Examples/Limiting.antt =====
-- A client that names itself anew with each request.
use ficct_boutique_backend_g.Base.{◌≡◌, refl, true, none, [], ◌∷◌, String, arith}
use ficct_boutique_backend_g.RateLimiter.{Limits}
use ficct_boutique_backend_g.Middleware.{Request}
use ficct_boutique_backend_g.Middleware.Fresh.{all_served, fresh_served}

abbrev small : Limits
small = record { rps = 1; burst = 1 }

abbrev request : String → Request
request name = record { authorization = ""; forwarded_for = name; remote_addr = "10.0.0.7" }

fresh_served_example :
    all_served small ((0, request "a") ∷ (0, request "b") ∷ (0, request "c") ∷ []) (λ key. none)
    ≡ true
fresh_served_example =
    fresh_served small ((0, request "a") ∷ (0, request "b") ∷ (0, request "c") ∷ []) (λ key. none)
      (omega arith) (refl, refl, (refl, (refl, tt)), (refl, refl, (refl, tt), (refl, refl, tt, tt)))
