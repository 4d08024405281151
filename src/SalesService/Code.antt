-- ===== src/SalesService/Code.antt =====
-- The code of an order: fmt.Sprintf("ORD-%s-%04d", date, uuid.New().ID()%10000).
use Prim.Native.String.{◌++◌ as text_append}
use ficct_boutique_backend_g.Base.{ℕ, ◌%◌, ◌/◌, ◌==◌, ◌≡◌, refl, String, if◌then◌else◌}

abbrev pub digit : ℕ → String
digit d =
    if d == 0
    then "0"
    else if d == 1
    then "1"
    else if d == 2
    then "2"
    else if d == 3
    then "3"
    else if d == 4
    then "4"
    else if d == 5
    then "5"
    else if d == 6
    then "6"
    else if d == 7
    then "7"
    else if d == 8
    then "8"
    else "9"

-- %04d of a number below 10000.
unfoldable pub four_digits : ℕ → String
four_digits n =
    text_append (digit (n / 1000 % 10))
      (text_append (digit (n / 100 % 10)) (text_append (digit (n / 10 % 10)) (digit (n % 10))))

unfoldable pub order_code : String → ℕ → String
unfolding four_digits
order_code date random_id =
    text_append "ORD-" (text_append date (text_append "-" (four_digits (random_id % 10000))))

code_example : order_code "20260610" 1230042 ≡ "ORD-20260610-0042"
unfolding order_code
code_example = refl
