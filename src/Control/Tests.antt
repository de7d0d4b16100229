-- ===== src/Control/Tests.antt =====
-- serde_json as a tree of values, a stdout that is a list of bytes, and the control plane on them.
use procwire_rust.Base.{
  ℕ, zero, suc, ◌+◌, ◌/◌, ◌%◌, ◌≡◌, refl, ◌==◌, true, false, Option, none, some, List, [], ◌∷◌,
  ◌++◌, if◌then◌else◌, arith,
}
use procwire_rust.Base.Assoc.{Map, text_key, lookup}
use procwire_rust.Base.Text.{codes, same_codes}
use procwire_rust.Error.{Result, ok, err, ProcwireError}
use procwire_rust.Control.Json.{Json, IsLawful}
use procwire_rust.Control.Init.{InitSchema, empty_schema, add_method, add_event, stream}
use procwire_rust.Control.Init.Message.{build_init_message}
use procwire_rust.Control.Init.Readable.{Announces, build_init_message-Announces}
use procwire_rust.Control.Stdio.{Stdout, write_stdout_json}
use procwire_rust.Control.Stdio.Steady.{IsSteady}
use procwire_rust.Control.Stdin.{
  ControlAction, pong, ignore, parse_control_line, open_end, closed, Console, finished,
  run_control_reader,
}
use procwire_rust.Control.Stdin.Lines.{end_line}
use procwire_rust.Control.Stdin.Replies.{Obeys}
use procwire_rust.Control.Stdin.Meaning.{ReadAs, run_control_reader-ReadAs}
use Prim.Native.String.{String}
use text.Mathlib.Text.{◌==◌ as str_eq}

mutual
  pub data Tree : Type 0 where
    num : ℕ → Tree
    str : List ℕ → Tree
    obj : Fields → Tree

  pub data Fields : Type 0 where
    end : Fields
    field : String → Tree → Fields → Fields

fields : Map String Tree → Fields
fields [] = end
fields ((k, v) ∷ m) = field k v (fields m)

find : String → Fields → Option Tree
find k end = none
find k (field j v fs) = if str_eq j k then some v else find k fs

find-fields : (k : String) (m : Map String Tree) → find k (fields m) ≡ lookup text_key k m
unfolding find fields lookup
find-fields k [] = refl
find-fields k ((j, v) ∷ m) = ground (arith, find-fields k m)

digits : ℕ → ℕ → List ℕ
digits zero n = []
digits (suc fuel) n =
    let more = digits fuel (n / 10) in (if n / 10 == 0 then [] else more) ++ ((b'0' + n % 10) ∷ [])

abbrev quoted : List ℕ → List ℕ
quoted s = codes "\"" ++ s ++ codes "\""

mutual
  print : Tree → List ℕ
  print (num n) = digits (suc n) n
  print (str s) = quoted s
  print (obj fs) = codes "{" ++ print_fields fs

  print_fields : Fields → List ℕ
  print_fields end = codes "}"
  print_fields (field k v fs) =
      quoted (codes k) ++ codes ":" ++ print v ++ codes "," ++ print_fields fs

-- A parser that knows two texts.
parse : List ℕ → Option Tree
parse text =
    if same_codes text (codes "{\"method\":\"$ping\"}")
    then some (obj (field "method" (str (codes "$ping")) end))
    else if same_codes text (codes "{\"method\":\"$shutdown\"}")
    then some (obj (field "method" (str (codes "$shutdown")) end))
    else none

tree_get : Tree → String → Option Tree
tree_get (obj fs) k = find k fs
tree_get _ k = none

abbrev tree_str : Tree → Option (List ℕ)
tree_str (str s) = some s
tree_str _ = none

abbrev tree_num : Tree → Option ℕ
tree_num (num n) = some n
tree_num _ = none

unfoldable pub trees : Json
unfolding tree_get parse print fields same_codes digits find
trees = record {
  Value = Tree;
  from_str = parse;
  to_string = print;
  get = tree_get;
  as_str = tree_str;
  as_u64 = tree_num;
  object = λ m. obj (fields m);
  text = str;
  number = num;
}

pub trees-IsLawful : IsLawful trees
unfolding trees tree_get
trees-IsLawful = record {
  get-object = λ m k. find-fields k m;
  as_str-text = λ s. refl;
  as_u64-number = λ n. refl;
}

pub taken :
    (s bs s' : List ℕ)
    → ◌≡◌ {A = Result (Unit {0}) × List ℕ} (ok tt, s ++ bs) (ok tt, s')
    → s' ≡ s ++ bs
taken s bs s' e = cc

pub never_fails :
    (s s' : List ℕ) (e : ProcwireError)
    → ◌≡◌ {A = Result (Unit {0}) × List ℕ} (ok tt, s) (err e, s')
    → ⊥
never_fails s s' e h = cc

-- A stdout that takes all bytes.
abbrev pub bytes_out : Stdout (List ℕ)
bytes_out = record {
  written = λ s. s;
  write_all = λ bs s. (ok tt, s ++ bs);
  flush = λ s. (ok tt, s);
  write_all_ok = λ bs s s' e. taken s bs s' e;
  write_all_err = λ bs s s' e h. absurd (never_fails (s ++ bs) s' e h);
  written-flush = λ s. refl;
}

pub bytes_out-IsSteady : IsSteady bytes_out
bytes_out-IsSteady = record { takes_all = λ bs s. refl; flushes = λ s. refl }

abbrev ping_line : List ℕ
ping_line = codes "  {\"method\":\"$ping\"}"

abbrev shutdown_line : List ℕ
shutdown_line = codes "{\"method\":\"$shutdown\"}"

ping_line_pong : parse_control_line trees (end_line ping_line) ≡ pong
unfolding parse_control_line trees parse find tree_get same_codes
ping_line_pong = refl

log_line_ignored : parse_control_line trees (codes "hello, this is a log line") ≡ ignore
unfolding parse_control_line
log_line_ignored = refl

abbrev console : List ℕ → Console (List ℕ)
console text = record {
  stdin = record { text = text; ending = open_end };
  stdout = [];
  cancelled = false;
}

-- A ping, a log line, and a ping that the end of stdin cuts.
abbrev closing : Console (List ℕ)
closing = record (console []) {
  stdin = record {
    text = (end_line ping_line ++ (end_line (codes "log") ++ [])) ++ ping_line;
    ending = closed;
  };
}

run_control_reader-ReadAs_example :
    (acts : List ControlAction) × ReadAs trees (ping_line ∷ codes "log" ∷ []) closed ping_line acts
    × Obeys trees bytes_out bytes_out-IsSteady acts closing
        (run_control_reader trees bytes_out closing)
run_control_reader-ReadAs_example =
    run_control_reader-ReadAs trees bytes_out bytes_out-IsSteady closing closed
      (ping_line ∷ codes "log" ∷ []) ping_line (omega arith) (omega arith) refl

-- The reader stops at a `$shutdown`, and does not answer the ping behind it.
shutdown_stops :
    run_control_reader trees bytes_out (console (end_line shutdown_line ++ end_line ping_line))
    ≡ (finished, record (console (end_line ping_line)) { cancelled = true })
unfolding run_control_reader parse_control_line trees parse find tree_get same_codes
shutdown_stops = refl

json_line :
    write_stdout_json bytes_out (λ (n : ℕ). ok (digits (suc n) n)) 42 []
    ≡ (ok tt, codes "42" ++ (b'\n' ∷ []))
unfolding write_stdout_json digits
json_line = refl

abbrev small_schema : InitSchema
small_schema = add_event (add_method empty_schema "echo" 1 stream) "progress" 1

build_init_message-Announces_example :
    (v : trees.Value) × (build_init_message trees (codes "/tmp/p.sock") small_schema
      ≡ trees.to_string v)
    × Announces trees v (codes "/tmp/p.sock") small_schema
build_init_message-Announces_example =
    build_init_message-Announces trees trees-IsLawful (codes "/tmp/p.sock") small_schema
