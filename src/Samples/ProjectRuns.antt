-- ===== src/Samples/ProjectRuns.antt =====
-- Runs of repair/Project.cpp on a small machine.
use f1x.Prelude.{
  ℕ, suc, ◌≡◌, ◌≢◌, ◌∙◌, ◌⊎◌, inl, inr, sym, refl, subst, List, [], ◌∷◌, All, Bool, true, false,
  Option, none, some, Option-cases, String, str_eq, str_eq_iff, ◌<>◌, Result, ok, err, Error, ◌>>=◌,
  if◌then◌else◌, get_elem?, Bool-cases, arith,
}
use f1x.Util.Environment.{Environment}
use f1x.Project.{
  ProjectFile, Machine, save_from, save_files_with_prefix, restore_files_with_prefix, system_in,
  compilers, get_file_id,
}
use f1x.Project.Saved.{FileRules, is_some, copies_from, save_files-copies, restore_files-save_files}
use f1x.Project.Surroundings.{EnvironmentRules, system_in-environment}
use f1x.Samples.{sample_config}

-- Files with their texts, and an environment
pub record Disk : Type 0 where
  texts : String → Option String
  variables : Environment

abbrev pub put : String → Option String → Disk → Disk
put p t d = record d { texts = λ q. if str_eq p q then t else d.texts q }

abbrev copied : Disk → String → String → Option String → Option String → Result Disk
copied d p q (some t) none = ok (put q (some t) d)
copied d p q _ _ = err Error.invalid_argument

abbrev pub machine : Machine Disk
machine = record {
  exists = λ d p. is_some (d.texts p);
  is_executable = λ d p. is_some (d.texts p);
  remove = λ d p. put p none d;
  create_directory = λ d p. d;
  copy = λ d p q. copied d p q (d.texts p) (d.texts q);
  rename = λ d p q. put p none (put q (d.texts p) d);
  read_lines = λ d p. elim (d.texts p) [ none ↦ [] | some t ↦ t ∷ [] ];
  write_lines = λ d p ls. put p (some (elim ls [ [] ↦ "" | t ∷ _ ↦ t ])) d;
  slash = λ a b. a <> "/" <> b;
  quoted = λ p. p;
  system = λ d command. (0, d);
  environment = λ d. d.variables;
  with_environment = λ e d. record d { variables = e };
  current_path = λ d. "/project";
  with_current_path = λ p d. d;
}

put-same : (p : String) (t : Option String) (d : Disk) → (put p t d).texts p ≡ t
put-same p t d = let same : str_eq p p ≡ true = (str_eq_iff p p).1 refl in rw same refl

str_eq-sym : (p q : String) → str_eq p q ≡ false → str_eq q p ≡ false
str_eq-sym p q h = elim (Bool-cases (str_eq q p)) [
  | inl e ↦
      let same : q ≡ p = (str_eq_iff q p).0 e in
      let again : str_eq p q ≡ true = (str_eq_iff p q).1 (sym same) in cc (h, again)
  | inr e ↦ e
]

copy_lem :
    (d : Disk) (p q t : String)
    → d.texts p ≡ some t
    → d.texts q ≡ none
    → (d' : Disk) × (machine.copy d p q ≡ ok d')
      × (d'.texts q ≡ some t)
      × ((r : String) → str_eq q r ≡ false → d'.texts r ≡ d.texts r)
copy_lem d p q t e free =
    (put q (some t) d, rw (e, free) refl, put-same q (some t) d, λ r h. rw h refl)

abbrev file_rules : FileRules machine String
file_rules = record {
  contents = λ d p. d.texts p;
  Apart = λ p q. str_eq p q ≡ false;
  apart_sym = str_eq-sym;
  exists_lem = λ d p. refl;
  remove-same = λ d p. put-same p none d;
  remove-other = λ d p q h. rw h refl;
  copy-done = copy_lem;
}

environment_rules : EnvironmentRules machine
environment_rules = record {
  environment-with_environment = λ e d n. refl;
  environment-system = λ d command n. refl;
}

abbrev file_named : String → ProjectFile
file_named name = record { relpath = name; from_line = 0; to_line = 0 }

abbrev pub two_files : List ProjectFile
two_files = file_named "a.c" ∷ file_named "b.c" ∷ []

abbrev pub start : Disk
start = record {
  texts =
      λ p. if str_eq p "a.c" then some "int a;" else if str_eq p "b.c" then some "int b;" else none;
  variables = λ n. if str_eq n "CC" then some "gcc" else none;
}

abbrev from_ok : Result Disk → Disk
from_ok (ok d) = d
from_ok (err e) = start

abbrev pub saved : Disk
saved = from_ok (save_files_with_prefix machine sample_config "original" two_files start)

abbrev changed : Disk
changed = put "a.c" (some "int c;") saved

saved_lem : save_files_with_prefix machine sample_config "original" two_files start ≡ ok saved
unfolding save_from f1x.Prelude.to_string
saved_lem = refl

-- The files and their copies are different files, and the files exist.
save_files-copies_example :
    (d : Disk) × (save_files_with_prefix machine sample_config "original" two_files start ≡ ok d)
    × All
        (λ c. d.texts c.1 ≡ start.texts c.0)
        (copies_from machine file_rules sample_config "original" 0 two_files)
unfolding f1x.Prelude.to_string
save_files-copies_example =
    save_files-copies machine file_rules sample_config "original" two_files start
      (refl, ((refl, refl, refl, refl), tt), (refl, tt, tt))
      (("int a;", refl), (("int b;", refl), tt))

restore_files-save_files_example :
    (d : Disk) × (restore_files_with_prefix machine sample_config "original" two_files changed
      ≡ ok d)
    × All
        (λ c. d.texts c.0 ≡ start.texts c.0)
        (copies_from machine file_rules sample_config "original" 0 two_files)
unfolding save_from f1x.Prelude.to_string
restore_files-save_files_example =
    restore_files-save_files machine file_rules sample_config "original" two_files start saved
      changed (refl, ((refl, refl, refl, refl), tt), (refl, tt, tt))
      (("int a;", refl), (("int b;", refl), tt)) saved_lem (refl, (refl, tt))

system_in-environment_example :
    (system_in machine sample_config compilers "make" start).1.variables "CC" ≡ start.variables "CC"
system_in-environment_example =
    system_in-environment machine sample_config environment_rules compilers "make" start "CC"
      ((refl, tt), (tt, tt)) (inl λ e. cc e)

second_file_id : get_file_id two_files (file_named "b.c") ≡ ok 1
unfolding get_file_id f1x.Project.count_before
second_file_id = refl
