-- ===== src/Core.antt =====
-- repair/Core.h: the data that the parts of the repair tool share.
pub mod Expressions
pub mod Config
use f1x.Prelude.{ℕ, ◌+◌, ◌≡◌, Bool, ◌&&◌, ◌==◌, List, String, true, arith}
use Expressions.{Expression}

pub data RepairStatus : Type 0 where
  success failure error no_negative_tests : RepairStatus

pub data TestPrioritization : Type 0 where
  fixed_order max_failing : TestPrioritization

pub data PatchPrioritization : Type 0 where
  syntactic_diff semantic_diff : PatchPrioritization

pub data TestStatus : Type 0 where
  pass fail timeout : TestStatus

pub record PatchId : Type 0 where
  pub base : ℕ
  pub int2 : ℕ
  pub bool2 : ℕ
  pub cond3 : ℕ
  pub param : ℕ

-- `PatchID::operator==`
abbrev pub patch_id_eq : PatchId → PatchId → Bool
patch_id_eq p q =
    p.base == q.base
    && (p.int2 == q.int2 && (p.bool2 == q.bool2 && (p.cond3 == q.cond3 && p.param == q.param)))

pub record Location : Type 0 where
  pub file_id : ℕ
  pub begin_line : ℕ
  pub begin_column : ℕ
  pub end_line : ℕ
  pub end_column : ℕ

-- `Location::operator==`
abbrev pub location_eq : Location → Location → Bool
location_eq a b =
    a.file_id == b.file_id
    && (a.begin_line == b.begin_line
        && (a.begin_column == b.begin_column
            && (a.end_line == b.end_line && a.end_column == b.end_column)))

pub location_eq_sound : (a b : Location) → location_eq a b ≡ true → a ≡ b
location_eq_sound a b h = ground arith

pub data TransformationSchema : Type 0 where
  expression if_guard loosening tightening initialization : TransformationSchema

pub data SynthesisRule : Type 0 where
  operator swaping simplification generalization concretization : SynthesisRule
  loosening tightening negation null_check substitution unsigned_cast : SynthesisRule

pub data LocationContext : Type 0 where
  condition unknown : LocationContext

pub record SchemaApplication : Type 0 where
  pub id : ℕ
  pub schema : TransformationSchema
  pub location : Location
  pub context : LocationContext
  pub original : Expression
  pub components : List Expression
  pub complete_pointee_types : List String

pub record PatchMetadata : Type 0 where
  pub rule : SynthesisRule
  pub distance : ℕ

pub record Patch : Type 0 where
  pub id : PatchId
  pub app : SchemaApplication
  pub modified : Expression
  pub meta : PatchMetadata
