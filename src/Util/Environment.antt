-- ===== src/Util/Environment.antt =====
-- repair/Util.cpp: `InEnvironment`, which sets variables of the environment for a time.
use f1x.Prelude.{
  ◌≡◌, ◌≢◌, refl, sym, subst, ap, ◌∙◌, List, [], ◌∷◌, All, Bool, true, false, Option, none, some,
  String, str_eq, str_eq_iff, Bool-cases, Option-cases, inl, inr, ◌⊎◌, if◌then◌else◌,
}

-- What `getenv` finds
abbrev pub Environment : Type 0
Environment = String → Option String

abbrev pub Variables : Type 0
Variables = List (String × String)

-- `setenv`, which overwrites
abbrev pub set_variable : String → String → Environment → Environment
set_variable name value e n = if str_eq name n then some value else e n

-- The constructor: `original`, and the new environment
unfoldable pub enter : Variables → Environment → Variables × Environment
enter [] e = ([], e)
enter ((name, value) ∷ vars) e =
    let (original, e') = enter vars (set_variable name value e) in
    (elim (e name) [ none ↦ original | some old ↦ (name, old) ∷ original ], e')

-- The destructor
unfoldable pub leave : Variables → Environment → Environment
leave [] e = e
leave ((name, value) ∷ original) e = leave original (set_variable name value e)

-- No variable of the list has the name.
abbrev pub IsFree : String → Variables → Type 0
IsFree n vars = All (λ v. str_eq v.0 n ≡ false) vars

-- A map has one entry for a name.
abbrev pub IsMap : Variables → Type 0
IsMap [] = Unit
IsMap ((name, value) ∷ vars) = IsFree name vars × IsMap vars

abbrev pub is_set : Variables → String → Bool
is_set [] n = false
is_set ((name, value) ∷ vars) n = let rest = is_set vars n in if str_eq name n then true else rest

leave-IsFree :
    (n : String) (original : Variables) (e : Environment)
    → IsFree n original
    → leave original e n ≡ e n
unfolding leave
leave-IsFree n [] e h = refl
leave-IsFree n ((name, value) ∷ original) e h =
    leave-IsFree n original (set_variable name value e) h.1 ∙ rw h.0 refl

pub leave-same :
    (n : String) (original : Variables) (e e' : Environment)
    → e n ≡ e' n
    → leave original e n ≡ leave original e' n
unfolding leave
leave-same n [] e e' h = h
leave-same n ((name, value) ∷ original) e e' h =
    leave-same n original (set_variable name value e) (set_variable name value e')
      (elim (Bool-cases (str_eq name n)) [ inl p ↦ rw p refl | inr p ↦ rw p h ])

enter-IsFree :
    (n : String) (vars : Variables) (e : Environment) → IsFree n vars → IsFree n (enter vars e).0
unfolding enter
enter-IsFree n [] e h = tt
enter-IsFree n ((name, value) ∷ vars) e h =
    let rest = enter-IsFree n vars (set_variable name value e) h.1 in
    elim (Option-cases (e name)) [ inl p ↦ rw p rest | inr (old, p) ↦ rw p (h.0, rest) ]

-- The variable that is set first is one of the map's.
leave-enter-first :
    (name value : String) (vars : Variables) (e : Environment)
    → IsFree name vars
    → e name ≢ none
    → leave (enter ((name, value) ∷ vars) e).0 (enter ((name, value) ∷ vars) e).1 name ≡ e name
unfolding enter leave
leave-enter-first name value vars e h k = elim (Option-cases (e name)) [
  | inl p ↦ elim (k p) [ ]
  | inr (old, p) ↦
      let entered = enter vars (set_variable name value e) in
      let now : str_eq name name ≡ true = (str_eq_iff name name).1 refl in
      rw p (
        leave-IsFree name entered.0 (set_variable name old entered.1)
          (enter-IsFree name vars (set_variable name value e) h)
        ∙ rw now refl)
]

-- Other variables
leave-enter-later :
    (name value : String) (vars : Variables) (e : Environment) (n : String)
    → str_eq name n ≡ false
    → leave (enter vars (set_variable name value e)).0 (enter vars (set_variable name value e)).1 n
      ≡ e n
    → leave (enter ((name, value) ∷ vars) e).0 (enter ((name, value) ∷ vars) e).1 n ≡ e n
unfolding enter leave
leave-enter-later name value vars e n h k =
    let entered = enter vars (set_variable name value e) in
    elim (Option-cases (e name)) [
      | inl p ↦ rw p k
      | inr (old, p) ↦
          rw p (leave-same n entered.0 (set_variable name old entered.1) entered.1 (rw h refl) ∙ k)
    ]

-- Where the environment is entered and left, and not changed in between: each variable that had a value
-- before has it again, and each one that is not among those to set is as before.
pub leave-enter :
    (vars : Variables) (e : Environment) (n : String)
    → IsMap vars
    → (e n ≢ none) ⊎ (is_set vars n ≡ false)
    → leave (enter vars e).0 (enter vars e).1 n ≡ e n
unfolding enter leave
leave-enter [] e n h k = refl
leave-enter ((name, value) ∷ vars) e n h k = elim (Bool-cases (str_eq name n)) [
  | inl p ↦
      let same : name ≡ n = (str_eq_iff name n).0 p in
      let first = λ (k' : e name ≢ none).
        subst
          (λ m. leave (enter ((name, value) ∷ vars) e).0 (enter ((name, value) ∷ vars) e).1 m ≡ e m)
          same (leave-enter-first name value vars e h.0 k') in
      elim k [
        | inl some_old ↦ first (λ q. some_old (ap e (sym same) ∙ q))
        | inr not_set ↦ cc (rw p at not_set)
      ]
  | inr p ↦
      let rest : (set_variable name value e n ≢ none) ⊎ (is_set vars n ≡ false) = elim k [
        | inl some_old ↦ inl (rw p some_old)
        | inr not_set ↦ inr (rw p at not_set)
      ] in
      leave-enter-later name value vars e n p
        (leave-enter vars (set_variable name value e) n h.1 rest ∙ rw p refl)
]
