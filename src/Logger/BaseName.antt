-- ===== src/Logger/BaseName.antt =====
-- `SourceFile` keeps what follows the last slash of a path.
use echo_server.Prelude.{
  ℕ, ◌≡◌, ◌⊎◌, refl, inl, inr, ap, true, false, List, [], ◌∷◌, ◌++◌, append_assoc, sym, ◌∙◌, Option,
  none, some, arith, contains, ◌==◌, if◌then◌else◌, Bool-cases,
}
use echo_server.Logger.{after_slash, base_name}

==-sound : (a b : ℕ) → (a == b) ≡ true → a ≡ b
==-sound a b h = ground arith

-- What the search for the last slash says of a path.
abbrev Found : List ℕ → Option (List ℕ) → Type 0
Found s none = contains b'/' s ≡ false
Found s (some rest) = (contains b'/' rest ≡ false) × (dir : List ℕ) × (s ≡ dir ++ (b'/' ∷ rest))

-- One more character in front.
Found-step :
    (c : ℕ) (cs : List ℕ) (o : Option (List ℕ))
    → Found cs o
    → Found (c ∷ cs) (elim o [ some rest ↦ some rest | none ↦ if c == b'/' then some cs else none ])
unfolding contains
Found-step c cs none h = elim (Bool-cases (c == b'/')) [
  | inl slash ↦ rw slash (h, [], ap (λ x. x ∷ cs) (==-sound c b'/' slash))
  | inr other ↦ rw other (rw (other, h) refl)
]
Found-step c cs (some rest) (clean, dir, joined) = (clean, c ∷ dir, ap (◌∷◌ c) joined)

after_slash-Found : (s : List ℕ) → Found s (after_slash s)
unfolding after_slash contains
after_slash-Found [] = refl
after_slash-Found (c ∷ cs) = Found-step c cs (after_slash cs) (after_slash-Found cs)

-- The parts of a path: a name with no slash, behind a directory that is empty or ends in a slash.
abbrev pub Parts : List ℕ → List ℕ → Type 0
Parts s name =
    (contains b'/' name ≡ false)
    × (dir : List ℕ) × (s ≡ dir ++ name)
    × ((dir ≡ []) ⊎ ((d : List ℕ) × (dir ≡ d ++ b'/' ∷ [])))

Parts-Found :
    (s : List ℕ) (o : Option (List ℕ))
    → Found s o
    → Parts s (elim o [ none ↦ s | some rest ↦ rest ])
Parts-Found s none h = (h, [], refl, inl refl)
Parts-Found s (some rest) (clean, d, joined) =
    (clean, d ++ b'/' ∷ [], joined ∙ sym (append_assoc d (b'/' ∷ []) rest), inr (d, refl))

-- The name that `SourceFile` keeps of a path has no slash, and the path is some directory and that
-- name, where the directory is empty or ends in a slash.
pub base_name-Parts : (s : List ℕ) → Parts s (base_name s)
unfolding base_name
base_name-Parts s = Parts-Found s (after_slash s) (after_slash-Found s)
