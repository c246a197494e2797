-- ===== src/Floats/Sample.antt =====
-- Operations that stand in for float64 in the examples: a pattern read as a whole number.
use opencoda.Prelude.{◌+◌, ◌-◌, ◌*◌, ◌/◌, ltb, nat_beq, pos_part, pos}
use opencoda.Floats.{FloatOps}

abbrev pub sample : FloatOps
sample = record {
  add = λ a b. a + b;
  sub = λ a b. a - b;
  mul = λ a b. a * b;
  div = λ a b. a / b;
  less = ltb;
  equal = nat_beq;
  of_int = pos_part;
  trunc = pos;
  ratio = λ n d. n / d;
}
