-- ===== src/Typing/Correct.antt =====
-- repair/Typing.cpp: what the correction of types achieves. `correctTypes` gives an expression of the
-- type that its context asks for, and in it the arguments of operators have the operators' types.
use f1x.Prelude.{
  String, Bool, true, false, ◌≡◌, refl, ◌⊎◌, inl, inr, arith, Result, ok, err, Returns,
  Returns-bind, Returns-ok, Returns-bind_eq, assert, Bool-cases,
}
use f1x.Core.Expressions.{
  NodeKind, ExprType, Operator, Expression, node, nil, cons, type, is_pointer,
}
use f1x.Util.Builders.{make_integer_const}
use f1x.Typing.Cases.{correct_top_node_cases}
use f1x.Typing.{
  operator_first_arg_type, common_subtype, correct_top_node, is_pointer_arithmetic, args_context,
  choose_context, correct_types,
}

-- `t` is the type that the context asks for; ANY asks for no change.
abbrev pub Fits : ExprType → ExprType → ExprType → Type 0
Fits ExprType.any t₀ t = t ≡ t₀
Fits ExprType.boolean t₀ t = t ≡ ExprType.boolean
Fits ExprType.integer t₀ t = t ≡ ExprType.integer
Fits ExprType.pointer t₀ t = t ≡ ExprType.pointer
Fits ExprType.bitvector t₀ t = t ≡ ExprType.bitvector

pub correct_top_node-Fits :
    (e : Expression) (c : ExprType) → Fits c (type e) (type (correct_top_node e c))
unfolding correct_top_node
correct_top_node-Fits (node k t o w r xs) ExprType.any = refl
correct_top_node-Fits (node k t o w r xs) c = ground arith

-- The type of an only argument.
abbrev pub Accepts : ExprType → ExprType → Type 0
Accepts ExprType.any t = Unit
Accepts ExprType.boolean t = t ≡ ExprType.boolean
Accepts ExprType.integer t = t ≡ ExprType.integer
Accepts ExprType.pointer t = t ≡ ExprType.pointer
Accepts ExprType.bitvector t = t ≡ ExprType.bitvector

-- The types of two arguments. A comparison is between arguments of one type, or with the constant 0.
abbrev pub Agree : ExprType → Expression → Expression → Type 0
Agree ExprType.any a b = (type a ≡ type b) ⊎ (b ≡ make_integer_const 0)
Agree ExprType.boolean a b = (type a ≡ ExprType.boolean) × (type b ≡ ExprType.boolean)
Agree ExprType.integer a b = (type a ≡ ExprType.integer) × (type b ≡ ExprType.integer)
Agree ExprType.pointer a b = (type a ≡ ExprType.pointer) × (type b ≡ ExprType.pointer)
Agree ExprType.bitvector a b = (type a ≡ ExprType.bitvector) × (type b ≡ ExprType.bitvector)

-- The arguments of a binary operator; `false` is for all but pointer arithmetic.
abbrev pub Operands : Bool → Operator → Expression → Expression → Type 0
Operands true o a b = (type a ≡ ExprType.pointer) × (type b ≡ ExprType.integer)
Operands false o a b = Returns (λ c. Agree c a b) (operator_first_arg_type o)

-- In every operator node reached by the correction, the arguments have the operator's types. The
-- left argument of pointer arithmetic is a pointer, and is not looked into.
abbrev pub WellTyped : Expression → Type 0
WellTyped (node NodeKind.operator t o w r (cons a nil)) =
    Returns (λ c. Accepts c (type a)) (operator_first_arg_type o) × WellTyped a
WellTyped (node NodeKind.operator t o w r (cons a (cons b nil))) =
    Operands (is_pointer_arithmetic o) o a b
    × ((is_pointer_arithmetic o ≡ false → WellTyped a) × WellTyped b)
WellTyped _ = Unit

correct_top_node-WellTyped :
    (e : Expression) (c : ExprType) → WellTyped e → WellTyped (correct_top_node e c)
unfolding correct_top_node make_integer_const operator_first_arg_type
correct_top_node-WellTyped e c h = correct_top_node_cases WellTyped e c (record {
  same = h;
  implicit_int = (tt, h);
  implicit_bv = (tt, h);
  explicit_int = (tt, h);
  explicit_bv = (tt, h);
  explicit_ptr = (tt, h);
  non_null = λ p. (inl p, ((λ _. h), tt));
  non_zero = (inr refl, ((λ _. h), tt));
  constant_true = tt;
  constant_false = tt;
})

Accepts_of_Fits : (c t₀ t : ExprType) → Fits c t₀ t → Accepts c t
Accepts_of_Fits ExprType.any t₀ t h = tt
Accepts_of_Fits ExprType.boolean t₀ t h = h
Accepts_of_Fits ExprType.integer t₀ t h = h
Accepts_of_Fits ExprType.pointer t₀ t h = h
Accepts_of_Fits ExprType.bitvector t₀ t h = h

-- Two arguments that are corrected to their common type agree.
common_Agree :
    (a b : Expression) (t₀ t₁ c : ExprType)
    → common_subtype t₀ t₁ ≡ ok c
    → Fits c t₀ (type a)
    → Fits c t₁ (type b)
    → Agree ExprType.any a b
unfolding common_subtype
common_Agree a b ExprType.any t₁ ExprType.any e h k = inl (ground arith)
common_Agree a b ExprType.any t₁ c e h k = inl (ground arith)
common_Agree a b t₀ t₁ c e h k = inl (ground arith)

args_Agree :
    (m : Result ExprType) (a b : Expression) (t₀ t₁ c : ExprType)
    → choose_context m t₀ t₁ ≡ ok c
    → Fits c t₀ (type a)
    → Fits c t₁ (type b)
    → Returns (λ d. Agree d a b) m
unfolding choose_context
args_Agree (err _) a b t₀ t₁ c e h k = tt
args_Agree (ok ExprType.any) a b t₀ t₁ c e h k = common_Agree a b t₀ t₁ c e h k
args_Agree (ok ExprType.boolean) a b t₀ t₁ c e h k = ground arith
args_Agree (ok ExprType.integer) a b t₀ t₁ c e h k = ground arith
args_Agree (ok ExprType.pointer) a b t₀ t₁ c e h k = ground arith
args_Agree (ok ExprType.bitvector) a b t₀ t₁ c e h k = ground arith

assert-true : (b : Bool) {u : Unit {0}} → assert b ≡ ok u → b ≡ true
assert-true true e = refl
assert-true false e = cc

-- What the correction promises of its result.
abbrev Corrected : Expression → ExprType → Expression → Type 0
Corrected e c e' = Fits c (type e) (type e') × WellTyped e'

Corrected-top : (e : Expression) (c : ExprType) → WellTyped e → Corrected e c (correct_top_node e c)
Corrected-top e c h = (correct_top_node-Fits e c, correct_top_node-WellTyped e c h)

Corrected-unary :
    (t : ExprType) (o : Operator) (w r : String) (a a' : Expression) (d : ExprType)
    → operator_first_arg_type o ≡ ok d
    → Corrected a d a'
    → WellTyped (node NodeKind.operator t o w r (cons a' nil))
Corrected-unary t o w r a a' d e h = (rw e (Accepts_of_Fits d (type a) (type a') h.0), h.1)

corrected_pointer :
    (t : ExprType) (o : Operator) (w r : String) (a b : Expression)
    → is_pointer_arithmetic o ≡ true
    → is_pointer (type a) ≡ true
    → (type b ≡ ExprType.integer) × WellTyped b
    → WellTyped (node NodeKind.operator t o w r (cons a (cons b nil)))
corrected_pointer t o w r a b e p h = (rw e (ground arith, h.0), ((λ f. cc), h.1))

Corrected-binary :
    (t : ExprType) (o : Operator) (w r : String) (a b a' b' : Expression) (d : ExprType)
    → is_pointer_arithmetic o ≡ false
    → args_context o (type a) (type b) ≡ ok d
    → Corrected a d a'
    → Corrected b d b'
    → WellTyped (node NodeKind.operator t o w r (cons a' (cons b' nil)))
unfolding args_context
Corrected-binary t o w r a b a' b' d p e h k = (
  rw p (args_Agree (operator_first_arg_type o) a' b' (type a) (type b) d e h.0 k.0),
  ((λ _. h.1), k.1),
)

pub correct_types-Corrected :
    (e : Expression) (c : ExprType) → Returns (Corrected e c) (correct_types e c)
unfolding correct_types
correct_types-Corrected (node NodeKind.operator t o w r (cons a nil)) c =
    Returns-bind_eq _ (operator_first_arg_type o) _ λ d e.
      Returns-bind (Corrected a d) _ (correct_types a d) _ (correct_types-Corrected a d) λ a' h.
        Corrected-top (node NodeKind.operator t o w r (cons a' nil)) c
          (Corrected-unary t o w r a a' d e h)
correct_types-Corrected (node NodeKind.operator t o w r (cons a (cons b nil))) c =
    let ih = correct_types-Corrected b ExprType.integer in
    elim (Bool-cases (is_pointer_arithmetic o)) [
      | inl p ↦
          rw (p, correct_types)
            (Returns-bind_eq _ (assert (is_pointer (type a))) _ λ _ e.
              Returns-bind (Corrected b ExprType.integer) _ (correct_types b ExprType.integer) _ ih
                λ b' h.
                  Corrected-top (node NodeKind.operator t o w r (cons a (cons b' nil))) c
                    (corrected_pointer t o w r a b' p (assert-true _ e) h))
      | inr p ↦
          rw (p, correct_types)
            (Returns-bind_eq _ (args_context o (type a) (type b)) _ λ d e.
              Returns-bind (Corrected a d) _ (correct_types a d) _ (correct_types-Corrected a d)
                λ a' h.
                  Returns-bind (Corrected b d) _ (correct_types b d) _ (correct_types-Corrected b d)
                    λ b' k.
                      Corrected-top (node NodeKind.operator t o w r (cons a' (cons b' nil))) c
                        (Corrected-binary t o w r a b a' b' d p e h k))
    ]
correct_types-Corrected (node NodeKind.operator t o w r xs) c = tt
correct_types-Corrected (node NodeKind.variable t o w r xs) c = Corrected-top _ c tt
correct_types-Corrected (node NodeKind.constant t o w r xs) c = Corrected-top _ c tt
correct_types-Corrected (node NodeKind.parameter t o w r xs) c = Corrected-top _ c tt
correct_types-Corrected (node NodeKind.dereference t o w r xs) c = Corrected-top _ c tt
correct_types-Corrected (node k t o w r xs) c = tt

-- Where `correctTypes` returns an expression, it has the type that the context asks for (its old
-- type, under ANY), and in every operator node that the correction reaches the arguments have the
-- operator's types: an equality is between arguments of one type or with the constant 0, and pointer
-- arithmetic is between a pointer and an integer. The correction does not reach into the pointer.
pub correct_types_sound :
    (e : Expression) (c : ExprType) {e' : Expression}
    → correct_types e c ≡ ok e'
    → Fits c (type e) (type e') × WellTyped e'
correct_types_sound e c h =
    Returns-ok (Corrected e c) (correct_types e c) (correct_types-Corrected e c) h
