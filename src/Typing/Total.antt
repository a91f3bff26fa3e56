-- ===== src/Typing/Total.antt =====
-- repair/Typing.cpp: where `correctTypes` returns a result and where it throws.
use f1x.Prelude.{true, false, ◌≡◌, ◌⊎◌}
use f1x.Core.Expressions.{NodeKind, ExprType, Operator, Expression, node, nil, cons, type}
use f1x.Typing.{is_pointer_arithmetic}

-- Two bit vectors have no common type.
abbrev pub HasCommon : ExprType → ExprType → Type 0
HasCommon ExprType.bitvector ExprType.bitvector = ⊥
HasCommon _ _ = Unit

abbrev pub HasContext : Operator → ExprType → ExprType → Type 0
HasContext Operator.none t₀ t₁ = ⊥
HasContext Operator.eq t₀ t₁ = HasCommon t₀ t₁
HasContext Operator.neq t₀ t₁ = HasCommon t₀ t₁
HasContext Operator.implicit_bv_cast t₀ t₁ = HasCommon t₀ t₁
HasContext Operator.implicit_int_cast t₀ t₁ = HasCommon t₀ t₁
HasContext Operator.explicit_bv_cast t₀ t₁ = HasCommon t₀ t₁
HasContext Operator.explicit_int_cast t₀ t₁ = HasCommon t₀ t₁
HasContext Operator.explicit_unsigned_cast t₀ t₁ = HasCommon t₀ t₁
HasContext Operator.explicit_ptr_cast t₀ t₁ = HasCommon t₀ t₁
HasContext _ t₀ t₁ = Unit

abbrev pub IsKnown : Operator → Type 0
IsKnown Operator.none = ⊥
IsKnown _ = Unit

-- Leaves, and known operators with one or two arguments, where pointer arithmetic starts from a pointer
-- and no equality comparison or cast has two bit vectors for its arguments.
abbrev pub Correctable : Expression → Type 0
Correctable (node NodeKind.operator t o w r (cons a nil)) = IsKnown o × Correctable a
Correctable (node NodeKind.operator t o w r (cons a (cons b nil))) =
    ((is_pointer_arithmetic o ≡ true) × (type a ≡ ExprType.pointer) × Correctable b)
    ⊎ ((is_pointer_arithmetic o ≡ false)
        × HasContext o (type a) (type b)
        × (Correctable a × Correctable b))
Correctable (node NodeKind.variable t o w r xs) = Unit
Correctable (node NodeKind.constant t o w r xs) = Unit
Correctable (node NodeKind.parameter t o w r xs) = Unit
Correctable (node NodeKind.dereference t o w r xs) = Unit
Correctable _ = ⊥
