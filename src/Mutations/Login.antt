-- ===== src/Mutations/Login.antt =====
-- graph/mutations.go: the mutation login, which asks for no token.
use ficct_boutique_backend_g.Base.{String}
use ficct_boutique_backend_g.Models.{Timestamp, User}
use ficct_boutique_backend_g.Store.{Tx, Env, pure, ◌>>=◌}
use ficct_boutique_backend_g.Password.{Argon}
use ficct_boutique_backend_g.Tokens.{Jwt, TokenIssuer}
use ficct_boutique_backend_g.UserRepo.{Cases}
use ficct_boutique_backend_g.AuthService

pub record AuthPayload : Type 0 where
  pub access_token : String
  pub expires_at : Timestamp
  pub user : User

unfoldable pub login : Cases → Argon → Jwt → TokenIssuer → Env → String → String → Tx AuthPayload
login C A J t env email password = do
  res ← AuthService.login C A J t env email password
  pure (record { access_token = res.access_token; expires_at = res.expires_at; user = res.user })
