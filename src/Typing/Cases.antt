-- ===== src/Typing/Cases.antt =====
-- repair/Typing.cpp: the outcomes of `correctTopNode`, for a property that each of them has.
use f1x.Prelude.{Bool, true, false, ◌≡◌, refl, str_eq, String, if◌then◌else◌}
use f1x.Core.Expressions.{
  NodeKind, ExprType, Operator, Expression, node, Args, kind_eq, type, true_node, false_node,
}
use f1x.Util.Builders.{
  wrap_with_implicit_int_cast, wrap_with_implicit_bv_cast, wrap_with_explicit_int_cast,
  wrap_with_explicit_bv_cast, wrap_with_explicit_ptr_cast, make_non_null_check, make_non_zero_check,
}
use f1x.Typing.{correct_top_node}

-- `P` holds of every expression that may take the place of `e`.
pub record Outcomes {ℓ} (P : Expression → Type ℓ) (e : Expression) : Type ℓ where
  pub same : P e
  pub implicit_int : P (wrap_with_implicit_int_cast e)
  pub implicit_bv : P (wrap_with_implicit_bv_cast e)
  pub explicit_int : P (wrap_with_explicit_int_cast e)
  pub explicit_bv : P (wrap_with_explicit_bv_cast e)
  pub explicit_ptr : P (wrap_with_explicit_ptr_cast e)
  pub non_null : type e ≡ ExprType.pointer → P (make_non_null_check e)
  pub non_zero : P (make_non_zero_check e)
  pub constant_true : P true_node
  pub constant_false : P false_node

if_cases {ℓ κ} :
    {A : Type ℓ} (P : A → Type κ) (b : Bool) (x y : A) → P x → P y → P (if b then x else y)
if_cases P true x y h k = h
if_cases P false x y h k = k

condition_cases {ℓ} :
    (P : Expression → Type ℓ) (k : NodeKind) (o : Operator) (w r : String) (xs : Args)
    → Outcomes P (node k ExprType.integer o w r xs)
    → P (correct_top_node (node k ExprType.integer o w r xs) ExprType.boolean)
unfolding correct_top_node
condition_cases P k o w r xs h =
    if_cases P (kind_eq k NodeKind.constant) _ _
      (if_cases P (str_eq r "0") _ _ h.constant_false
        (if_cases P (str_eq r "1") _ _ h.constant_true h.non_zero))
      h.non_zero

pub correct_top_node_cases {ℓ} :
    (P : Expression → Type ℓ) (e : Expression) (c : ExprType)
    → Outcomes P e
    → P (correct_top_node e c)
unfolding correct_top_node
correct_top_node_cases P e ExprType.any h = h.same
correct_top_node_cases P (node k ExprType.integer o w r xs) ExprType.boolean h =
    condition_cases P k o w r xs h
correct_top_node_cases P (node k ExprType.any o w r xs) ExprType.boolean h = h.non_zero
correct_top_node_cases P (node k ExprType.boolean o w r xs) ExprType.boolean h = h.same
correct_top_node_cases P (node k ExprType.pointer o w r xs) ExprType.boolean h = h.non_null refl
correct_top_node_cases P (node k ExprType.bitvector o w r xs) ExprType.boolean h = h.non_zero
correct_top_node_cases P (node k ExprType.integer o w r xs) ExprType.integer h = h.same
correct_top_node_cases P (node k ExprType.pointer o w r xs) ExprType.integer h = h.explicit_int
correct_top_node_cases P (node k _ o w r xs) ExprType.integer h = h.implicit_int
correct_top_node_cases P (node k ExprType.bitvector o w r xs) ExprType.bitvector h = h.same
correct_top_node_cases P (node k ExprType.pointer o w r xs) ExprType.bitvector h = h.explicit_bv
correct_top_node_cases P (node k _ o w r xs) ExprType.bitvector h = h.implicit_bv
correct_top_node_cases P (node k ExprType.pointer o w r xs) ExprType.pointer h = h.same
correct_top_node_cases P (node k _ o w r xs) ExprType.pointer h = h.explicit_ptr
