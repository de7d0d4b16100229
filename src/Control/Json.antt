-- ===== src/Control/Json.antt =====
-- serde_json, as src/control uses it: the values, the parser and the printer are parameters. A
-- `serde_json::Map` is an association list, a text its code points, and a printed value its bytes.
use procwire_rust.Base.{ℕ, ◌≡◌, Option, some, List}
use procwire_rust.Base.Assoc.{Map, text_key, lookup}
use Prim.Native.String.{String}

pub record Json : Type 1 where
  pub Value : Type 0
  -- `from_str::<Value>`, of the code points of a text
  pub from_str : List ℕ → Option Value
  pub to_string : Value → List ℕ
  -- `Value::get` with a key of an object
  pub get : Value → String → Option Value
  pub as_str : Value → Option (List ℕ)
  pub as_u64 : Value → Option ℕ
  -- what `json!` builds
  pub object : Map String Value → Value
  pub text : List ℕ → Value
  pub number : ℕ → Value

-- Reading what was built.
pub record IsLawful (J : Json) : Type 0 where
  pub get-object :
      (m : Map String J.Value) (k : String) → J.get (J.object m) k ≡ lookup text_key k m
  pub as_str-text : (s : List ℕ) → J.as_str (J.text s) ≡ some s
  pub as_u64-number : (n : ℕ) → J.as_u64 (J.number n) ≡ some n
