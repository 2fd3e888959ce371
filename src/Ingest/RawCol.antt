-- ===== src/Ingest/RawCol.antt =====
-- src/ingest/raw_val.rs and src/mem_store/raw_col.rs: a column in memory, of values of any type, with
-- the types that it has met. An f64 is its 64 bits.
pub mod Typed
use locust_db.Prelude.{ℕ, Bool, true, false, ◌||◌, List, [], ◌∷◌, ◌++◌, map, length, replicate}
use locust_db.Prelude.Int.{ℤ}
use locust_db.Stringpack.{Bytes}
use locust_db.Engine.DataTypes.Types.{BasicType}

pub data RawVal : Type 0 where
  int : ℤ → RawVal
  float : ℕ → RawVal
  str : Bytes → RawVal
  null : RawVal

unfoldable pub get_type : RawVal → BasicType
get_type (int i) = BasicType.integer
get_type (str s) = BasicType.string
get_type null = BasicType.none
get_type (float f) = BasicType.float

pub record ColType : Type 0 where
  pub contains_string : Bool
  pub contains_int : Bool
  pub contains_float : Bool
  pub contains_null : Bool

abbrev pub string_type : ColType
string_type = record {
  contains_string = true;
  contains_int = false;
  contains_float = false;
  contains_null = false;
}

abbrev pub int_type : ColType
int_type = record {
  contains_string = false;
  contains_int = true;
  contains_float = false;
  contains_null = false;
}

abbrev pub float_type : ColType
float_type = record {
  contains_string = false;
  contains_int = false;
  contains_float = true;
  contains_null = false;
}

abbrev pub null_type : ColType
null_type = record {
  contains_string = false;
  contains_int = false;
  contains_float = false;
  contains_null = true;
}

abbrev pub nothing : ColType
nothing = record {
  contains_string = false;
  contains_int = false;
  contains_float = false;
  contains_null = false;
}

abbrev pub determine : RawVal → ColType
determine null = null_type
determine (str s) = string_type
determine (int i) = int_type
determine (float f) = float_type

abbrev pub bitor : ColType → ColType → ColType
bitor lhs rhs = record {
  contains_string = lhs.contains_string || rhs.contains_string;
  contains_int = lhs.contains_int || rhs.contains_int;
  contains_float = lhs.contains_float || rhs.contains_float;
  contains_null = lhs.contains_null || rhs.contains_null;
}

pub record MixedCol : Type 0 where
  pub types : ColType
  pub values : List RawVal

unfoldable pub push : MixedCol → RawVal → MixedCol
push col elem = record {
  types = bitor col.types (determine elem);
  values = col.values ++ elem ∷ [];
}

unfoldable pub push_ints : MixedCol → List ℤ → MixedCol
push_ints col ints = record {
  types = bitor col.types int_type;
  values = col.values ++ map int ints;
}

unfoldable pub push_floats : MixedCol → List ℕ → MixedCol
push_floats col floats = record {
  types = bitor col.types float_type;
  values = col.values ++ map float floats;
}

unfoldable pub push_strings : MixedCol → List Bytes → MixedCol
push_strings col strs = record {
  types = bitor col.types string_type;
  values = col.values ++ map str strs;
}

unfoldable pub push_nulls : MixedCol → ℕ → MixedCol
push_nulls col count = record {
  types = bitor col.types null_type;
  values = col.values ++ replicate count null;
}

unfoldable pub with_nulls : ℕ → MixedCol
unfolding push_nulls
with_nulls count = push_nulls (record { types = nothing; values = [] }) count

unfoldable pub len : MixedCol → ℕ
len col = length col.values
