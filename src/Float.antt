-- ===== src/Float.antt =====
-- float64 arithmetic on bit patterns. The operations are those of the Go language and of the
-- NUMERIC(12,2) columns, which no definition here computes: they are an argument of every function
-- that uses them.
use ficct_boutique_backend_g.Base.{Bool, Option}
use ficct_boutique_backend_g.Base.Int.{ℤ}
use ficct_boutique_backend_g.Models.{Float64}

pub record Float64Ops : Type 0 where
  pub add : Float64 → Float64 → Float64
  pub mul : Float64 → Float64 → Float64
  -- float64(n)
  pub of_int : ℤ → Float64
  -- a < b
  pub lt : Float64 → Float64 → Bool
  -- What is read back from a NUMERIC(12,2) column that the value is written to; `none` where the
  -- column refuses it.
  pub numeric : Float64 → Option Float64

abbrev pub float_zero : Float64
float_zero = 0

-- The literal 0.13.
abbrev pub tax_rate : Float64
tax_rate = 0x3FC0A3D70A3D70A4
