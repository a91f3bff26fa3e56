-- ===== src/Samples/UtilRuns.antt =====
-- Runs of repair/Util.cpp.
use f1x.Prelude.{◌≡◌, ◌↔◌, refl, List, [], ◌∷◌, All, String, IsOk, ok, to_string, inr, none}
use f1x.Util.Messages.{
  pretty_print_tests, print_tests, dump_search_space, visualize_element, visualize_synthesis_rule,
  visualize_transformation_schema, visualize_change, visualize_patch_id,
}
use f1x.Util.Printable.{IsPrintable, dump_search_space_iff}
use f1x.Util.Paths.{relative_to, up_from}
use f1x.Util.Environment.{leave, enter, leave-enter}
use f1x.Samples.{patch_number}

abbrev directory : List String
directory = "/" ∷ "home" ∷ "project" ∷ []

relative_lem : relative_to directory ("/" ∷ "home" ∷ "lib" ∷ "a.c" ∷ []) ≡ ".." ∷ "lib" ∷ "a.c" ∷ []
unfolding relative_to up_from
relative_lem = refl

printed_tests : pretty_print_tests ("a" ∷ "b" ∷ []) ≡ "[a, b]"
unfolding pretty_print_tests print_tests
printed_tests = refl

dump_search_space_iff_example :
    IsOk (dump_search_space to_string (patch_number 3 ∷ []) ("a.c" ∷ []) (λ id. 10))
    ↔ All (IsPrintable ("a.c" ∷ [])) (patch_number 3 ∷ [])
dump_search_space_iff_example =
    dump_search_space_iff to_string ("a.c" ∷ []) (λ id. 10) (patch_number 3 ∷ [])

dumped :
    dump_search_space to_string (patch_number 3 ∷ []) ("a.c" ∷ []) (λ id. 10)
    ≡ ok ("10 3:0:0:0:0 add if guard [substitute] \"1\" ---> \"(x > y)\" in a.c:3" ∷ [])
unfolding dump_search_space visualize_element visualize_transformation_schema
    visualize_synthesis_rule visualize_change visualize_patch_id
    f1x.Util.Builders.expression_to_string to_string
dumped = refl

leave-enter_example :
    leave
      (enter (("CC", "f1x-cc") ∷ []) (λ n. none)).0
      (enter (("CC", "f1x-cc") ∷ []) (λ n. none)).1
      "PATH"
    ≡ none
leave-enter_example = leave-enter (("CC", "f1x-cc") ∷ []) (λ n. none) "PATH" (tt, tt) (inr refl)
