-- ===== src/Sampling/Csv/Delimiter.antt =====
-- The delimiter that is chosen occurs most often on the first line, and the comma wins ties.
use mathlib.Core.Path.{subst}
use migration_platform.Prelude.{
  ℕ, ◌+◌, ◌<◌, ◌≤◌, ◌≡◌, ◌≢◌, ◌⊎◌, refl, sym, ◌∙◌, inl, inr, true, false, List, [], ◌∷◌, All, arith,
  Bool-cases, ltb,
}
use migration_platform.Sampling.Csv.{first_line, count_of, best_of, candidates, detect_delimiter}

-- None of the candidates occurs more often.
abbrev pub Wins : ℕ → List ℕ → List ℕ → Type 0
Wins d cs line = All (λ c. count_of c line ≤ count_of d line) cs

best_of-keeps :
    (cs : List ℕ) (best : ℕ × ℕ) (line : List ℕ)
    → best.1 ≤ count_of best.0 line + 1
    → best.1 ≤ count_of (best_of cs best line) line + 1
unfolding best_of
best_of-keeps [] best line h = h
best_of-keeps (c ∷ cs) best line h = elim (Bool-cases (ltb best.1 (count_of c line + 1))) [
  | inl better ↦
      let k = best_of-keeps cs (c, count_of c line + 1) line (omega arith) in
      rw better (ground (arith, k))
  | inr worse ↦ rw worse (best_of-keeps cs best line h)
]

best_of-better :
    (c : ℕ) (cs : List ℕ) (best : ℕ × ℕ) (line : List ℕ)
    → ltb best.1 (count_of c line + 1) ≡ true
    → best_of (c ∷ cs) best line ≡ best_of cs (c, count_of c line + 1) line
unfolding best_of
best_of-better c cs best line h = rw h refl

best_of-worse :
    (c : ℕ) (cs : List ℕ) (best : ℕ × ℕ) (line : List ℕ)
    → ltb best.1 (count_of c line + 1) ≡ false
    → best_of (c ∷ cs) best line ≡ best_of cs best line
unfolding best_of
best_of-worse c cs best line h = rw h refl

Wins-eq : (d e : ℕ) (cs line : List ℕ) → d ≡ e → Wins e cs line → Wins d cs line
Wins-eq d e cs line same w = subst (λ x. Wins x cs line) (sym same) w

best_of-Wins :
    (cs : List ℕ) (best : ℕ × ℕ) (line : List ℕ)
    → best.1 ≤ count_of best.0 line + 1
    → Wins (best_of cs best line) cs line
best_of-Wins [] best line h = tt
best_of-Wins (c ∷ cs) best line h = elim (Bool-cases (ltb best.1 (count_of c line + 1))) [
  | inl better ↦
      let k = best_of-keeps cs (c, count_of c line + 1) line (omega arith) in
      Wins-eq _ _ (c ∷ cs) line (best_of-better c cs best line better)
        (omega (arith, k), best_of-Wins cs (c, count_of c line + 1) line (omega arith))
  | inr worse ↦
      let k = best_of-keeps cs best line h in
      let low : count_of c line + 1 ≤ best.1 = ground arith in
      Wins-eq _ _ (c ∷ cs) line (best_of-worse c cs best line worse)
        (omega (arith, k, low), best_of-Wins cs best line h)
]

-- The best so far is given up only for a better one.
best_of-first :
    (cs : List ℕ) (best : ℕ × ℕ) (line : List ℕ)
    → best.1 ≤ count_of best.0 line + 1
    → (best_of cs best line ≡ best.0) ⊎ (best.1 < count_of (best_of cs best line) line + 1)
unfolding best_of
best_of-first [] best line h = inl refl
best_of-first (c ∷ cs) best line h = elim (Bool-cases (ltb best.1 (count_of c line + 1))) [
  | inl better ↦
      let k = best_of-keeps cs (c, count_of c line + 1) line (omega arith) in
      let up : best.1 < count_of c line + 1 = ground arith in rw better (inr (omega (arith, k, up)))
  | inr worse ↦ rw worse (best_of-first cs best line h)
]

-- No candidate occurs more often on the first line than the delimiter that is chosen, and one that is
-- not the comma occurs more often than the comma.
pub detect_delimiter-Wins :
    (bytes : List ℕ)
    → Wins (detect_delimiter bytes) candidates (first_line bytes)
      × (detect_delimiter bytes ≢ b','
          → count_of b',' (first_line bytes) < count_of (detect_delimiter bytes) (first_line bytes))
unfolding detect_delimiter
detect_delimiter-Wins bytes =
    let line = first_line bytes in
    let others : List ℕ = b';' ∷ b'\t' ∷ b'|' ∷ [] in
    let step = best_of-better b',' others (b',', 0) line (ground arith) in
    (
      best_of-Wins candidates (b',', 0) line (omega arith),
      λ other. elim (best_of-first others (b',', count_of b',' line + 1) line (omega arith)) [
        | inl same ↦ absurd (other (step ∙ same))
        | inr more ↦ rw step (omega (arith, more))
      ],
    )
