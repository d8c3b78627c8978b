-- ===== src/Base/Floats.antt =====
-- Python's `float`, which the program takes from the interpreter: a type of values, infinities and
-- NaN among them, with the operations that the code calls. No law is assumed; what is proved holds for every such type.
-- `whole` is the instance of the witnesses: whole numbers with exact arithmetic, written in strokes.
use data_gateway.Base.Tests.{◌==◌}
use data_gateway.Base.Int.{ℤ, pos, pos_part, neg_part, sub_ℕ, leb_ℤ}
use Prim.Native.Nat.{ℕ, ◌+◌, ◌*◌, ◌/◌}
use Prim.Native.Nat.{zero, suc}
use Prim.Native.String.{String, ◌++◌}
use mathlib.Core.Option.{Option, some}
use mathlib.Core.Bool.{Bool, false, not}

pub record Floats : Type 1 where
  pub Float : Type 0
  pub of_int : ℤ → Float
  -- x + y, x - y, x * y, x / y with y not 0, abs(x)
  pub add : Float → Float → Float
  pub sub : Float → Float → Float
  pub mul : Float → Float → Float
  pub div : Float → Float → Float
  pub abs : Float → Float
  -- x < y, x <= y, and the truth value of x (false at 0.0)
  pub lt : Float → Float → Bool
  pub le : Float → Float → Bool
  pub truthy : Float → Bool
  -- round(x) and int(x), none where they raise: ValueError for NaN, OverflowError for an infinity
  pub round_int : Float → Option ℤ
  pub trunc : Float → Option ℤ
  pub is_nan : Float → Bool
  -- round(x, n)
  pub round_to : ℕ → Float → Float
  -- f"{x:.{n}f}", str(n), float(s), and int(math.floor(math.log10(x) + 1e-9))
  pub fixed : ℕ → Float → String
  pub int_text : ℤ → String
  pub parse_float : String → Option Float
  pub floor_log10 : Float → ℤ

abbrev pub mul_ℤ : ℤ → ℤ → ℤ
mul_ℤ a b =
    sub_ℕ (pos_part a * pos_part b + neg_part a * neg_part b)
      (pos_part a * neg_part b + neg_part a * pos_part b)

abbrev pub strokes : ℕ → String
strokes zero = ""
strokes (suc n) = "|" ++ strokes n

abbrev pub count_strokes : String → ℕ
count_strokes String.[] = 0
count_strokes (String.◌∷◌ c s) = suc (count_strokes s)

abbrev pub whole : Floats
whole = record {
  Float = ℤ;
  of_int = λ n. n;
  add = λ a b. sub_ℕ (pos_part a + pos_part b) (neg_part a + neg_part b);
  sub = λ a b. sub_ℕ (pos_part a + neg_part b) (neg_part a + pos_part b);
  mul = mul_ℤ;
  div = λ a b. pos (pos_part a / pos_part b);
  abs = λ a. pos (pos_part a + neg_part a);
  lt = λ a b. not (leb_ℤ b a);
  le = leb_ℤ;
  truthy = λ a. not (pos_part a + neg_part a == 0);
  round_int = some;
  trunc = some;
  is_nan = λ n. false;
  round_to = λ d n. n;
  fixed = λ d n. strokes (pos_part n);
  int_text = λ n. strokes (pos_part n);
  parse_float = λ s. some (pos (count_strokes s));
  floor_log10 = λ n. pos 0;
}
