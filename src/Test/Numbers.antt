-- ===== src/Test/Numbers.antt =====
-- The theorems on numbers at sample values.
use oberon.Prelude.{arith}
use oberon.Prelude.Int.{pos, negsuc}
use oberon.Flags.{synthesize_flags_int32}
use oberon.Flags.Relation.{Compares, relations_of_compare}
use oberon.O3.Floor.{DivMod, DivMod-floor}

relations_of_compare_example : Compares (synthesize_flags_int32 4294967295 5) 4294967295 5
relations_of_compare_example = relations_of_compare 4294967295 5 (omega arith) (omega arith)

DivMod-floor_example : DivMod (negsuc 6) (pos 2)
DivMod-floor_example =
    DivMod-floor (negsuc 6) (pos 2) (ground arith) (ground arith) (ground arith) (ground arith)
