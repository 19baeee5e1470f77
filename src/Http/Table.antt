-- ===== src/Http/Table.antt =====
-- The declaration of a table: `HttpTableSpec` and its parts (crates/pawrly-sources/http/src/source.rs).
use pawrly.Prelude.{ℕ, Text, Bool, Option, List}
use pawrly.Http.Expr.{ColumnExpr}
use pawrly.Http.Paginate.Next.{PaginationConfig}

pub data Derive : Type 0 where
  ago : (seconds : ℕ) → Derive
  split_param : (from separator : Text) → (part : ℕ) → Derive

pub record ParamSpec : Type 0 where
  pub name : Text
  pub param_type : Text
  pub required : Bool
  pub default : Option Text
  pub accepts : List Text
  pub emit : List (Text × Text)
  pub explode : Bool
  pub derive : Option Derive
  pub filterable : Bool

pub data BodyKind : Type 0 where
  json form : BodyKind

pub record RequestBody : Type 0 where
  pub kind : BodyKind
  pub template : Text

pub record ConditionalRequest : Type 0 where
  pub when_filters : List Text
  pub endpoint : Text
  pub method : Text
  pub body : Option RequestBody

pub data StatusMatcher : Type 0 where
  exact_code : ℕ → StatusMatcher
  status_expr : Text → StatusMatcher

pub record ResponseErrorSpec : Type 0 where
  pub status : List StatusMatcher
  pub path : Option Text

pub data Reshape : Type 0 where
  dict_entries : Reshape
  series_points : (series points timestamp value : Text) → Reshape

pub record ResponseColumn : Type 0 where
  pub name : Text
  pub column_type : Text
  pub source : Option Text
  pub expr : Option ColumnExpr

pub record ResponseSpec : Type 0 where
  pub path : Text
  pub schema : List ResponseColumn
  pub allow_404_empty : Bool
  pub error : Option ResponseErrorSpec
  pub reshape : Option Reshape

pub record HttpTableSpec : Type 0 where
  pub name : Text
  pub endpoint : Text
  pub method : Text
  pub params : List ParamSpec
  pub headers : List (Text × Text)
  pub body : Option RequestBody
  pub requests : List ConditionalRequest
  pub response : ResponseSpec
  pub pagination : Option PaginationConfig
