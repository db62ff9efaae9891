-- ===== src/Sim/Exact.antt =====
-- Integers in the place of `Float64`, for concrete runs of internal/engine/a/service. They are no model of
-- Go's float64, which rounds, and nothing is claimed of them.
use sys_escape.Prelude.{ℕ, ◌+◌}
use sys_escape.Prelude.Int.{ℤ, pos, pos_part, neg_part, ◌+ℤ◌, ◌-ℤ◌, ltb_ℤ, leb_ℤ}
use sys_escape.Sim.Types.{Float64}

abbrev neg_ℤ : ℤ → ℤ
neg_ℤ a = pos 0 -ℤ a

abbrev pub magnitude : ℤ → ℕ
magnitude a = pos_part a + neg_part a

instance abbrev pub exact : Float64 ℤ
exact = record {
  zero_value = pos 0;
  epsilon = pos 0;
  lt = ltb_ℤ;
  le = leb_ℤ;
  add = ◌+ℤ◌;
  sub = ◌-ℤ◌;
  neg = neg_ℤ;
  abs = λ a. pos (magnitude a);
}
