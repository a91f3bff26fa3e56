-- ===== src/Transform/Settings.antt =====
-- transform/TransformGlobal.h: the configuration of the source transformation.
use f1x.Prelude.{ℕ, Bool, String, ltb, ◌+◌, ◌*◌, ◌%◌, Result, ok, assert, ◌>>◌}

pub record TransformConfig : Type 0 where
  pub file_id : ℕ
  pub from_line : ℕ
  pub to_line : ℕ
  pub profile_file : String
  pub output_file : String
  pub begin_line : ℕ
  pub begin_column : ℕ
  pub end_line : ℕ
  pub end_column : ℕ
  pub patch : String
  pub base_app_id : ℕ
  pub use_global_variables : Bool
  pub add_guards : Bool
  pub inplace_modification : Bool

-- The number of applications that an id can tell apart in a file, `1 << (F1XAPP_WIDTH - F1XAPP_VALUE_BITS)`
abbrev pub value_limit : ℕ
value_limit = 4194304

-- `f1xapp`, on 64-bit numbers
unfoldable pub f1xapp : ℕ → ℕ → Result ℕ
f1xapp base_id file_id = do
  assert (ltb base_id value_limit)
  ok ((file_id * value_limit % 18446744073709551616 + base_id) % 18446744073709551616)
