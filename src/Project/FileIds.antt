-- ===== src/Project/FileIds.antt =====
-- repair/Project.cpp: the ids of files.
use f1x.Prelude.{
  ℕ, zero, suc, ◌<◌, ◌≡◌, refl, List, [], ◌∷◌, length, get_elem?, true, false, some, str_eq,
  str_eq_iff, ok, ltb, All, All-get, arith, ap,
}
use f1x.Project.{ProjectFile, count_before, get_file_id}

-- No path is that of two files.
abbrev pub HaveDistinctPaths : List ProjectFile → Type 0
HaveDistinctPaths [] = Unit
HaveDistinctPaths (f ∷ fs) = All (λ g. str_eq g.relpath f.relpath ≡ false) fs × HaveDistinctPaths fs

get_elem?-lt {ℓ} :
    {A : Type ℓ} (xs : List A) (i : ℕ) {a : A} → get_elem? xs i ≡ some a → i < length xs
get_elem?-lt [] i e = cc
get_elem?-lt (x ∷ xs) zero e = omega arith
get_elem?-lt (x ∷ xs) (suc i) e = omega (arith, get_elem?-lt xs i e)

same_path : (f : ProjectFile) → str_eq f.relpath f.relpath ≡ true
same_path f = (str_eq_iff f.relpath f.relpath).1 refl

count_before-index :
    (fs : List ProjectFile) (i : ℕ) {f : ProjectFile}
    → HaveDistinctPaths fs
    → get_elem? fs i ≡ some f
    → count_before fs f ≡ i
unfolding count_before
count_before-index [] i h e = cc
count_before-index (g ∷ fs) zero {f} h e =
    let same : str_eq f.relpath g.relpath ≡ true =
      All-get (λ f'. str_eq f'.relpath g.relpath ≡ true) (g ∷ []) 0 (same_path g, tt) e in
    rw same refl
count_before-index (g ∷ fs) (suc i) {f} h e =
    rw (All-get _ fs i h.0 e) (ap suc (count_before-index fs i h.1 e))

-- In a project without two files of one path, the id of a file is its index in the project's list, which
-- is the one that locations name it by.
pub get_file_id-index :
    (fs : List ProjectFile) (i : ℕ) {f : ProjectFile}
    → HaveDistinctPaths fs
    → get_elem? fs i ≡ some f
    → get_file_id fs f ≡ ok i
unfolding get_file_id
get_file_id-index fs i {f} h e =
    let inside : ltb i (length fs) ≡ true = ground (arith, get_elem?-lt fs i e) in
    rw (count_before-index fs i h e, inside) refl
