-- ===== src/BranchRepo.antt =====
-- internal/repository/branches.go: the branches of the boutique.
use ficct_boutique_backend_g.Base.{
  String, Bool, true, Option, List, ◌||◌, ◌==◌, str_eq, find_where, select_where, any_where,
  insert_row, order_by,
}
use ficct_boutique_backend_g.Models.{Uuid, Float64, Branch}
use ficct_boutique_backend_g.Store.{Error, Tx, Env, ok, pure, ◌>>=◌, ◌>>◌, gets, fail_if, or_fail}

abbrev pub put_branches : List Branch → Tx (Unit {0})
put_branches rows db = ok tt (record db { branches = rows })

-- The columns of the INSERT; the others have their defaults.
pub record NewBranch : Type 0 where
  pub code : String
  pub name : String
  pub address : String
  pub latitude : Option Float64
  pub longitude : Option Float64
  pub phone : Option String

abbrev pub new_branch : Env → NewBranch → Branch
new_branch env b = record {
  id = env.uuid 0;
  code = b.code;
  name = b.name;
  address = b.address;
  latitude = b.latitude;
  longitude = b.longitude;
  phone = b.phone;
  is_active = true;
  created_at = env.now;
  updated_at = env.now;
}

-- The identifier and the code are unique.
unfoldable pub create : Env → NewBranch → Tx Branch
create env b = do
  rows ← gets (λ db. db.branches)
  fail_if (any_where (λ x. x.id == env.uuid 0 || str_eq x.code b.code) rows) Error.unique_violation
  put_branches (insert_row (new_branch env b) rows)
  pure (new_branch env b)

-- ORDER BY name under the collation of the database.
unfoldable pub list : (String → String → Bool) → Tx (List Branch)
list collate =
    gets
      (λ db. order_by (λ x y. collate x.name y.name) (select_where (λ b. b.is_active) db.branches))

unfoldable pub find : Uuid → Tx Branch
find id db = or_fail Error.not_found (find_where (λ b. b.id == id) db.branches) db
