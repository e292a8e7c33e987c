-- ===== src/Policy/Pattern.antt =====
-- `matchesAction`: a pattern is a text in which `*` stands for any run of characters of one line.
use Prim.Native.Char.{code}
use birthub_360_innovation.Base.{
  ℕ, String, Bool, true, false, ◌||◌, not, List, [], ◌∷◌, ◌==◌, if◌then◌else◌, str_eq, ◌≡◌, ◌≢◌,
  refl, arith, ◌↔◌, Bool-cases, inl, inr, eq_iff, ◌⊎◌, subst,
}

abbrev pub codes : String → List ℕ
codes String.[] = []
codes (String.◌∷◌ c s) = code c ∷ codes s

-- What `.` does not match in a regular expression.
abbrev pub is_line_end : ℕ → Bool
is_line_end c = c == 10 || c == 13 || c == 0x2028 || c == 0x2029

-- `pattern.includes("*")`
abbrev pub has_star : List ℕ → Bool
has_star [] = false
has_star (c ∷ p) = c == b'*' || has_star p

-- The test of the regular expression `^…$` in which every character is escaped but `*`, which
-- becomes `.*`.
unfoldable pub glob : List ℕ → List ℕ → Bool
glob [] [] = true
glob [] (x ∷ s) = false
glob (c ∷ p) [] = let rest = glob p [] in if c == b'*' then rest else false
glob (c ∷ p) (x ∷ s) =
    let skip = glob p (x ∷ s) in
    let more = glob (c ∷ p) s in
    let next = glob p s in
    let star = if skip then true else if is_line_end x then false else more in
    if c == b'*' then star else if c == x then next else false

unfoldable pub matches_action : String → String → Bool
matches_action pattern action =
    if str_eq pattern "*"
    then true
    else if not (has_star (codes pattern))
    then str_eq pattern action
    else glob (codes pattern) (codes action)

-- What a pattern means.
pub data Matches : List ℕ → List ℕ → Type 0 where
  done : Matches [] []
  lit : {c : ℕ} {p s : List ℕ} → c ≢ b'*' → Matches p s → Matches (c ∷ p) (c ∷ s)
  stop : {c : ℕ} {p s : List ℕ} → c ≡ b'*' → Matches p s → Matches (c ∷ p) s
  run :
      {c x : ℕ} {p s : List ℕ}
      → c ≡ b'*'
      → is_line_end x ≡ false
      → Matches (c ∷ p) s
      → Matches (c ∷ p) (x ∷ s)

glob_sound : (p s : List ℕ) → glob p s ≡ true → Matches p s
unfolding glob
glob_sound [] [] h = done
glob_sound [] (x ∷ s) h = cc
glob_sound (c ∷ p) [] h = elim (Bool-cases (c == b'*')) [
  | inl e ↦ stop (ground arith) (glob_sound p [] (ground arith))
  | inr e ↦ cc (rw e at h)
]
glob_sound (c ∷ p) (x ∷ s) h = elim (Bool-cases (c == b'*')) [
  | inl e ↦ elim (Bool-cases (glob p (x ∷ s))) [
    | inl k ↦ stop (ground arith) (glob_sound p (x ∷ s) k)
    | inr k ↦ run (ground arith) (ground arith) (glob_sound (c ∷ p) s (ground arith))
  ]
  | inr e ↦
      let same : c ≡ x = ground arith in
      subst (λ y. Matches (c ∷ p) (y ∷ s)) same (lit (ground arith) (glob_sound p s (ground arith)))
]

glob_full : {p s : List ℕ} → Matches p s → glob p s ≡ true
unfolding glob
glob_full done = refl
glob_full (lit {c} {p} {s} h m) = ground (arith, glob_full m)
glob_full (stop {c} {p} {s = []} h m) = ground (arith, glob_full m)
glob_full (stop {c} {p} {s = x ∷ s} h m) = ground (arith, glob_full m)
glob_full (run {c} {x} {p} {s} h k m) = ground (arith, glob_full m)

star-has_star : (pattern : String) → pattern ≡ "*" → has_star (codes pattern) ≡ true
star-has_star pattern e = rw e

-- What the code takes a pattern to cover.
abbrev pub Covers : String → String → Type 0
Covers pattern action =
    (pattern ≡ "*")
    ⊎ ((has_star (codes pattern) ≡ false) × (pattern ≡ action))
    ⊎ ((has_star (codes pattern) ≡ true) × Matches (codes pattern) (codes action))

-- A pattern `*` matches every action, a pattern with no `*` matches itself alone, and any other
-- matches an action exactly when the action is the pattern with each `*` replaced by a run of
-- characters of one line.
pub matches_action_lem :
    (pattern action : String) → (matches_action pattern action ≡ true) ↔ Covers pattern action
unfolding matches_action
matches_action_lem pattern action = (there, back)
  where
    there : matches_action pattern action ≡ true → Covers pattern action
    there h = elim (Bool-cases (str_eq pattern "*")) [
      | inl e ↦ inl ((eq_iff pattern "*").0 e)
      | inr n ↦ elim (Bool-cases (has_star (codes pattern))) [
        | inl star ↦ inr (inr (star, glob_sound _ _ (ground (arith, h))))
        | inr plain ↦ inr (inl (plain, (eq_iff pattern action).0 (ground (arith, h))))
      ]
    ]

    back : Covers pattern action → matches_action pattern action ≡ true
    back (inl e) = ground (arith, eq_iff pattern "*")
    back (inr (inl (h, e))) =
        ground (arith, eq_iff pattern "*", eq_iff pattern action, star-has_star pattern)
    back (inr (inr (h, m))) = ground (arith, eq_iff pattern "*", glob_full m)
