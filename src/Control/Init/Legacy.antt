-- ===== src/Control/Init/Legacy.antt =====
-- src/control/init.rs: the legacy types of the `$init` message.
use procwire_rust.Base.{ℕ}
use procwire_rust.Base.Assoc.{Map}
use Prim.Native.String.{String}

pub record MethodDef : Type 0 where
  pub id : ℕ

pub record EventDef : Type 0 where
  pub id : ℕ

pub record Schema : Type 0 where
  pub methods : Map String MethodDef
  pub events : Map String EventDef

pub record InitParams : Type 0 where
  pub pipe_path : String
  pub schema : Schema

pub record InitMessage : Type 0 where
  pub jsonrpc : String
  pub method : String
  pub params : InitParams

abbrev pub new : String → Schema → InitMessage
new pipe_path schema = record {
  jsonrpc = "2.0";
  method = "$init";
  params = record { pipe_path = pipe_path; schema = schema };
}
