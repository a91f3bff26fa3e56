-- ===== src/Project/Saved.antt =====
-- repair/Project.cpp: what is saved of the files of a project can be restored.
use f1x.Prelude.{
  ℕ, suc, ◌≡◌, refl, sym, ◌∙◌, ap, List, [], ◌∷◌, All, All-mono, All-map, All-of_map, All-both,
  Returns-ok, map, Bool, true, false, Option, none, some, String, Option-cases, inl, inr, Result,
  ok, ◌>>=◌, if◌then◌else◌,
}
use f1x.Core.Config.{Config}
use f1x.Project.{
  ProjectFile, Machine, saved_file, remove_old, save_from, save_files_with_prefix, restore_from,
  restore_files_with_prefix,
}

abbrev pub is_some {ℓ} : {A : Type ℓ} → Option A → Bool
is_some none = false
is_some (some a) = true

-- The documented behaviour of `exists`, `remove` and `copy` on files. `Apart` says of two paths that they
-- name different files.
pub record FileRules {W : Type 0} (machine : Machine W) (T : Type 0) : Type 1 where
  pub contents : W → String → Option T
  pub Apart : String → String → Type 0
  pub apart_sym : (p q : String) → Apart p q → Apart q p
  pub exists_lem : (w : W) (p : String) → machine.exists w p ≡ is_some (contents w p)
  pub remove-same : (w : W) (p : String) → contents (machine.remove w p) p ≡ none
  pub remove-other :
      (w : W) (p q : String) → Apart p q → contents (machine.remove w p) q ≡ contents w q
  pub copy-done :
      (w : W) (p q : String) (t : T)
      → contents w p ≡ some t
      → contents w q ≡ none
      → (w' : W) × (machine.copy w p q ≡ ok w')
        × (contents w' q ≡ some t)
        × ((r : String) → Apart q r → contents w' r ≡ contents w r)

-- A copy, from a path to another
abbrev pub Copy : Type 0
Copy = String × String

module _ {W T : Type 0} (machine : Machine W) (rules : FileRules machine T) where
  abbrev pub ExistsIn : W → String → Type 0
  ExistsIn w p = (t : T) × (rules.contents w p ≡ some t)

  -- The copies have nothing to do with each other.
  abbrev pub Separate : List Copy → Type 0
  Separate [] = Unit
  Separate ((p, q) ∷ copies) =
      rules.Apart q p
      × All (λ c. rules.Apart q c.0 × rules.Apart q c.1 × rules.Apart p c.0 × rules.Apart p c.1)
          copies
      × Separate copies

  -- One copy, in place of what there is
  copy_over :
      (w : W) (p q : String)
      → rules.Apart q p
      → ExistsIn w p
      → (w' : W) × (machine.copy (if machine.exists w q then machine.remove w q else w) p q ≡ ok w')
        × (rules.contents w' q ≡ rules.contents w p)
        × ((r : String) → rules.Apart q r → rules.contents w' r ≡ rules.contents w r)
  copy_over w p q h (t, e) = elim (Option-cases (rules.contents w q)) [
    | inl free ↦
        let (w', done, same, others) = rules.copy-done w p q t e free in
        rw (rules.exists_lem w q, free) (w', done, same ∙ sym e, others)
    | inr (u, taken) ↦
        let removed = machine.remove w q in
        let (w', done, same, others) =
          rules.copy-done removed p q t (rules.remove-other w q p h ∙ e) (rules.remove-same w q) in
        rw (rules.exists_lem w q, taken)
          (w', done, same ∙ sym e, λ r k. others r k ∙ rules.remove-other w q r k)
  ]

  -- Copies in their order
  abbrev copy_all : List Copy → W → Result W
  copy_all [] w = ok w
  copy_all ((p, q) ∷ copies) w =
      machine.copy (if machine.exists w q then machine.remove w q else w) p q >>= copy_all copies

  copy_all-Copied :
      (copies : List Copy) (w : W)
      → Separate copies
      → All (λ c. ExistsIn w c.0) copies
      → (w' : W) × (copy_all copies w ≡ ok w')
        × All (λ c. rules.contents w' c.1 ≡ rules.contents w c.0) copies
        × ((r : String)
            → All (λ c. rules.Apart c.1 r) copies
            → rules.contents w' r ≡ rules.contents w r)
  copy_all-Copied [] w h k = (w, refl, tt, λ r a. refl)
  copy_all-Copied ((p, q) ∷ copies) w h k =
      let (w₁, done, same, others) = copy_over w p q h.0 k.0 in
      let unchanged : All (λ c. rules.contents w₁ c.0 ≡ rules.contents w c.0) copies =
        All-mono _ _ (λ c a. others c.0 a.0) copies h.1 in
      let sources : All (λ c. ExistsIn w₁ c.0) copies =
        All-mono _ _ (λ c x. (x.1.0, x.0 ∙ x.1.1)) copies (All-both _ _ copies unchanged k.1) in
      let (w', rest, copied, left) = copy_all-Copied copies w₁ h.2 sources in
      (
        w',
        rw done rest,
        (
          left q (All-mono _ _ (λ c a. rules.apart_sym q c.1 a.1) copies h.1) ∙ same,
          All-mono _ _ (λ c x. x.0 ∙ x.1) copies (All-both _ _ copies copied unchanged),
        ),
        λ r a. left r a.1 ∙ others r a.0,
      )

  Separate-swap : (copies : List Copy) → Separate copies → Separate (map (λ c. (c.1, c.0)) copies)
  Separate-swap [] h = tt
  Separate-swap ((p, q) ∷ copies) h = (
    rules.apart_sym q p h.0,
    All-map _ (λ c. rules.Apart p c.0 × rules.Apart p c.1 × rules.Apart q c.0 × rules.Apart q c.1)
        (λ c. (c.1, c.0)) (λ c a. (a.3, a.2, a.1, a.0)) copies h.1,
    Separate-swap copies h.2,
  )

  module _ (cfg : Config) (prefix : String) where
    -- The files of a project and their copies, from an index on
    abbrev pub copies_from : ℕ → List ProjectFile → List Copy
    copies_from i [] = []
    copies_from i (f ∷ fs) = (f.relpath, saved_file machine cfg prefix i) ∷ copies_from (suc i) fs

    save_from-copy_all :
        (i : ℕ) (fs : List ProjectFile) (w : W)
        → save_from machine cfg prefix i fs w ≡ copy_all (copies_from i fs) w
    unfolding save_from
    save_from-copy_all i [] w = refl
    save_from-copy_all i (f ∷ fs) w =
        ap
          (λ (rest : W → Result W).
            machine.copy (remove_old machine cfg (saved_file machine cfg prefix i) w) f.relpath
              (saved_file machine cfg prefix i)
            >>= rest)
          (λ k w'. save_from-copy_all (suc i) fs w' k)

    restore_from-copy_all :
        (i : ℕ) (fs : List ProjectFile) (w : W)
        → restore_from machine cfg prefix i fs w
          ≡ copy_all (map (λ c. (c.1, c.0)) (copies_from i fs)) w
    unfolding restore_from
    restore_from-copy_all i [] w = refl
    restore_from-copy_all i (f ∷ fs) w =
        ap
          (λ (rest : W → Result W).
            machine.copy (remove_old machine cfg f.relpath w) (saved_file machine cfg prefix i)
              f.relpath
            >>= rest)
          (λ k w'. restore_from-copy_all (suc i) fs w' k)

    -- For a project whose files exist, and whose files and copies are different files: saving them ends
    -- without a failure, and each copy has the contents of its file.
    pub save_files-copies :
        (fs : List ProjectFile) (w : W)
        → Separate (copies_from 0 fs)
        → All (λ c. ExistsIn w c.0) (copies_from 0 fs)
        → (w' : W) × (save_files_with_prefix machine cfg prefix fs w ≡ ok w')
          × All (λ c. rules.contents w' c.1 ≡ rules.contents w c.0) (copies_from 0 fs)
    save_files-copies fs w h k =
        let (w', done, copied, left) = copy_all-Copied (copies_from 0 fs) w h k in
        (w', save_from-copy_all 0 fs w ∙ done, copied)

    -- For such a project: once its files are saved, and whatever happens to them then, as long as it
    -- leaves the copies as they are, restoring the files ends without a failure, and each file has the
    -- contents that it had when it was saved.
    pub restore_files-save_files :
        (fs : List ProjectFile) (w w₁ w₂ : W)
        → Separate (copies_from 0 fs)
        → All (λ c. ExistsIn w c.0) (copies_from 0 fs)
        → save_files_with_prefix machine cfg prefix fs w ≡ ok w₁
        → All (λ c. rules.contents w₂ c.1 ≡ rules.contents w₁ c.1) (copies_from 0 fs)
        → (w₃ : W) × (restore_files_with_prefix machine cfg prefix fs w₂ ≡ ok w₃)
          × All (λ c. rules.contents w₃ c.0 ≡ rules.contents w c.0) (copies_from 0 fs)
    restore_files-save_files fs w w₁ w₂ h k saved kept =
        let copies = copies_from 0 fs in
        let (w', e, copied) = save_files-copies fs w h k in
        let at_save : All (λ c. rules.contents w₁ c.1 ≡ rules.contents w c.0) copies =
          Returns-ok (λ w'. All (λ c. rules.contents w' c.1 ≡ rules.contents w c.0) copies) (ok w')
            copied (sym e ∙ saved) in
        let now : All (λ c. rules.contents w₂ c.1 ≡ rules.contents w c.0) copies =
          All-mono _ _ (λ c x. x.0 ∙ x.1) copies (All-both _ _ copies kept at_save) in
        let sources : All (λ c. ExistsIn w₂ c.1) copies =
          All-mono _ _ (λ c x. (x.1.0, x.0 ∙ x.1.1)) copies (All-both _ _ copies now k) in
        let (w₃, done, restored, left) =
          copy_all-Copied (map (λ c. (c.1, c.0)) copies) w₂ (Separate-swap copies h) (
            All-map (λ c. ExistsIn w₂ c.1) (λ c. ExistsIn w₂ c.0) (λ c. (c.1, c.0)) (λ c x. x)
              copies sources) in
        let back : All (λ c. rules.contents w₃ c.0 ≡ rules.contents w₂ c.1) copies =
          All-of_map (λ c. rules.contents w₃ c.1 ≡ rules.contents w₂ c.0) (λ c. (c.1, c.0)) copies
            restored in
        (
          w₃,
          restore_from-copy_all 0 fs w₂ ∙ done,
          All-mono _ _ (λ c x. x.0 ∙ x.1) copies (All-both _ _ copies back now),
        )
