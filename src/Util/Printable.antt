-- ===== src/Util/Printable.antt =====
-- repair/Util.cpp: when the file with the search space can be written.
use f1x.Prelude.{
  ℕ, zero, suc, ◌≤◌, ◌<◌, ◌≡◌, ◌≢◌, ◌↔◌, refl, ◌⊎◌, inl, inr, arith, List, [], ◌∷◌, length, All,
  String, IsOk, IsOk-bind, IsOk-bind_parts,
}
use f1x.Core.{PatchId, TransformationSchema, SynthesisRule, Patch}
use f1x.Core.Expressions.{Expression, node, Args, nil, cons}
use f1x.Util.Builders.{expression_to_string}
use f1x.Util.Messages.{
  visualize_transformation_schema, visualize_synthesis_rule, visualize_change, visualize_element,
  file_name_at, file_of, dump_search_space,
}

abbrev args_count : Args → ℕ
args_count nil = 0
args_count (cons x xs) = suc (args_count xs)

abbrev mutual
  -- No node has more than two arguments.
  pub AtMostBinary : Expression → Type 0
  AtMostBinary (node k t o w r xs) = (args_count xs ≤ 2) × AllAtMostBinary xs

  pub AllAtMostBinary : Args → Type 0
  AllAtMostBinary nil = Unit
  AllAtMostBinary (cons x xs) = AtMostBinary x × AllAtMostBinary xs

-- The schemas but loosening and tightening
abbrev pub IsApplied : TransformationSchema → Type 0
IsApplied s =
    (s ≡ TransformationSchema.expression)
    ⊎ (s ≡ TransformationSchema.if_guard)
    ⊎ (s ≡ TransformationSchema.initialization)

-- What the texts about a patch can be made of
abbrev pub IsPrintable : List String → Patch → Type 0
IsPrintable files p =
    (p.meta.rule ≢ SynthesisRule.unsigned_cast)
    × IsApplied p.app.schema
    × (p.app.location.file_id < length files)
    × AtMostBinary p.app.original
    × AtMostBinary p.modified

schema_text : (s : TransformationSchema) → IsApplied s → IsOk (visualize_transformation_schema s)
unfolding visualize_transformation_schema
schema_text s (inl e) = rw e (_, refl)
schema_text s (inr (inl e)) = rw e (_, refl)
schema_text s (inr (inr e)) = rw e (_, refl)

text_schema : (s : TransformationSchema) → IsOk (visualize_transformation_schema s) → IsApplied s
unfolding visualize_transformation_schema
text_schema TransformationSchema.expression h = inl refl
text_schema TransformationSchema.if_guard h = inr (inl refl)
text_schema TransformationSchema.initialization h = inr (inr refl)
text_schema TransformationSchema.loosening h = cc h.1
text_schema TransformationSchema.tightening h = cc h.1

file_found : (files : List String) (id : ℕ) → id < length files → IsOk (file_name_at files id)
file_found [] id h = absurd (omega arith)
file_found (file ∷ files) zero h = (file, refl)
file_found (file ∷ files) (suc id) h = file_found files id (omega arith)

found_file : (files : List String) (id : ℕ) → IsOk (file_name_at files id) → id < length files
found_file [] id h = cc h.1
found_file (file ∷ files) zero h = omega arith
found_file (file ∷ files) (suc id) h = omega (arith, found_file files id h)

expression_text : (e : Expression) → AtMostBinary e → IsOk (expression_to_string e)
unfolding expression_to_string
expression_text (node k t o w r nil) h = (_, refl)
expression_text (node k t o w r (cons a nil)) h =
    IsOk-bind (expression_to_string a) _ (expression_text a h.1.0) λ x _. (_, refl)
expression_text (node k t o w r (cons a (cons b nil))) h =
    IsOk-bind (expression_to_string a) _ (expression_text a h.1.0)
      λ x _. IsOk-bind (expression_to_string b) _ (expression_text b h.1.1.0) λ y _. (_, refl)
expression_text (node k t o w r (cons a (cons b (cons c more)))) h = absurd (omega (arith, h.0))

text_expression : (e : Expression) → IsOk (expression_to_string e) → AtMostBinary e
unfolding expression_to_string
text_expression (node k t o w r nil) h = (omega arith, tt)
text_expression (node k t o w r (cons a nil)) h =
    let (x, e, h) = IsOk-bind_parts (expression_to_string a) _ h in
    (omega arith, (text_expression a (x, e), tt))
text_expression (node k t o w r (cons a (cons b nil))) h =
    let (x, e, h) = IsOk-bind_parts (expression_to_string a) _ h in
    let (y, f, h) = IsOk-bind_parts (expression_to_string b) _ h in
    (omega arith, (text_expression a (x, e), (text_expression b (y, f), tt)))
text_expression (node k t o w r (cons a (cons b (cons c more)))) h = cc h.1

rule_printable :
    (r : SynthesisRule) → r ≢ SynthesisRule.unsigned_cast → IsOk (visualize_synthesis_rule r)
unfolding visualize_synthesis_rule
rule_printable SynthesisRule.unsigned_cast h = elim (h refl) [ ]
rule_printable SynthesisRule.operator h = (_, refl)
rule_printable SynthesisRule.swaping h = (_, refl)
rule_printable SynthesisRule.simplification h = (_, refl)
rule_printable SynthesisRule.generalization h = (_, refl)
rule_printable SynthesisRule.concretization h = (_, refl)
rule_printable SynthesisRule.loosening h = (_, refl)
rule_printable SynthesisRule.tightening h = (_, refl)
rule_printable SynthesisRule.negation h = (_, refl)
rule_printable SynthesisRule.null_check h = (_, refl)
rule_printable SynthesisRule.substitution h = (_, refl)

printable_rule :
    (r : SynthesisRule) → IsOk (visualize_synthesis_rule r) → r ≢ SynthesisRule.unsigned_cast
unfolding visualize_synthesis_rule
printable_rule r h e = cc (rw e at h.1)

module _ (show_cost : ℕ → String) (files : List String) (cost : PatchId → ℕ) where
  element_text : (p : Patch) (file : String) → IsPrintable files p → IsOk (visualize_element p file)
  unfolding visualize_element visualize_change
  element_text p file h =
      IsOk-bind (visualize_transformation_schema p.app.schema) _ (schema_text p.app.schema h.1)
        λ schema _.
          IsOk-bind (visualize_synthesis_rule p.meta.rule) _ (rule_printable p.meta.rule h.0)
            λ rule _.
              IsOk-bind (visualize_change p) _
                (IsOk-bind (expression_to_string p.app.original) _
                  (expression_text p.app.original h.3)
                  λ original _.
                    IsOk-bind (expression_to_string p.modified) _ (expression_text p.modified h.4)
                      λ modified _. (_, refl))
                λ change _. (_, refl)

  element_parts :
      (p : Patch) (file : String)
      → IsOk (file_of files p)
      → IsOk (visualize_element p file)
      → IsPrintable files p
  unfolding visualize_element visualize_change
  element_parts p file k h =
      let (schema, es, h) = IsOk-bind_parts (visualize_transformation_schema p.app.schema) _ h in
      let (rule, er, h) = IsOk-bind_parts (visualize_synthesis_rule p.meta.rule) _ h in
      let (change, ec, h) = IsOk-bind_parts (visualize_change p) _ h in
      let (original, eo, h) =
        IsOk-bind_parts (expression_to_string p.app.original) _ (change, ec) in
      let (modified, em, h) = IsOk-bind_parts (expression_to_string p.modified) _ h in
      (
        printable_rule p.meta.rule (rule, er),
        text_schema p.app.schema (schema, es),
        found_file files p.app.location.file_id k,
        text_expression p.app.original (original, eo),
        text_expression p.modified (modified, em),
      )

  dump_lines :
      (ps : List Patch)
      → All (IsPrintable files) ps
      → IsOk (dump_search_space show_cost ps files cost)
  unfolding dump_search_space
  dump_lines [] h = ([], refl)
  dump_lines (p ∷ ps) h =
      IsOk-bind (file_of files p) _ (file_found files p.app.location.file_id h.0.2) λ file _.
        IsOk-bind (visualize_element p file) _ (element_text p file h.0) λ line _.
          IsOk-bind (dump_search_space show_cost ps files cost) _ (dump_lines ps h.1)
            λ rest _. (_, refl)

  dumped_lines :
      (ps : List Patch)
      → IsOk (dump_search_space show_cost ps files cost)
      → All (IsPrintable files) ps
  unfolding dump_search_space
  dumped_lines [] h = tt
  dumped_lines (p ∷ ps) h =
      let (file, ef, h) = IsOk-bind_parts (file_of files p) _ h in
      let (line, el, h) = IsOk-bind_parts (visualize_element p file) _ h in
      let (rest, er, h) = IsOk-bind_parts (dump_search_space show_cost ps files cost) _ h in
      (element_parts p file (file, ef) (line, el), dumped_lines ps (rest, er))

  -- The search space is written to its file without a failure exactly if for each patch the rule of its
  -- synthesis is not the cast to unsigned, its schema is a changed expression, a guard or an
  -- initialization, its file id is below the number of files, and no node of its two expressions has
  -- more than two arguments.
  pub dump_search_space_iff :
      (ps : List Patch)
      → IsOk (dump_search_space show_cost ps files cost) ↔ All (IsPrintable files) ps
  dump_search_space_iff ps = (dumped_lines ps, dump_lines ps)
