-- ===== src/Samples/Json.antt =====
-- The libraries of the HTTP handler in gateway/src/main.rs, with a JSON value as its text.
use Prim.Native.String.{String, ◌++◌ as ◌<>◌}
use gateway_g_rpc.Prelude.{Option, some, List, [], ◌∷◌}
use gateway_g_rpc.Http.{Libraries}

-- The fields of an object as text.
abbrev pub fields : List (String × String) → String
fields [] = ""
fields ((key, v) ∷ rest) = key <> (":" <> (v <> (" " <> fields rest)))

-- Every body is `parsed`, and every value has itself as its fields.
abbrev pub json : {Error : Type 0} → Option String → Libraries Error
json parsed = record {
  Value = String;
  from_slice = λ _. parsed;
  get_field = λ _ v. some v;
  as_str = λ v. some v;
  text = λ s. s;
  integer = λ _. "n";
  object = λ fs. fields fs;
  to_string = λ v. v;
  from_utf8_lossy = λ _. "text";
  display = λ _. "down";
}
