-- ===== src/Sampling/Json/Complete.antt =====
-- apps/api/src/sampling/json.rs: the objects that best_effort_array takes out of a cut array. A text is
-- described by its structure: single characters, strings with their escapes, and braces that match.
use mathlib.Core.List.{append-nil, append_assoc}
use migration_platform.Prelude.{
  ℕ, suc, ◌≡◌, refl, sym, ap, ◌∙◌, true, false, not, ◌&&◌, Option, none, some, List, [], ◌∷◌, ◌++◌,
  Result, arith, length, length-append, if◌then◌else◌, ◌==◌,
}
use migration_platform.Text.{Str}
use migration_platform.Int.{pos}
use migration_platform.Json.{Value}
use migration_platform.Sampling.Json.Scan.{
  Scan, scan, scan_step, scan_start, extend, parsed, is_zero, pred, best_effort_array, some_records,
}
use migration_platform.Sampling.Json.Grammar.{
  is_plain, is_literal, Quoted, Balanced, quoted_text, text_of, object_text, Part, parts_text,
  objects, close_quote, literal, escaped, finish, plain, quoted, braces, between, complete,
}

module _ (from_str : Str → Result Str Value) where
  -- What the texts parse to, without those that do not parse.
  abbrev pub values_of : List Str → List Value
  values_of [] = []
  values_of (t ∷ ts) = parsed from_str (some t) ++ values_of ts

  -- The state at a depth, with the text since the opening brace, outside a string and inside one.
  abbrev outside : ℕ → Str → List Value → Scan
  outside n text out = record {
    depth = pos n;
    start = some text;
    in_string = false;
    escape = false;
    out = out;
  }

  abbrev inside : ℕ → Str → List Value → Scan
  inside n text out = record {
    depth = pos n;
    start = some text;
    in_string = true;
    escape = false;
    out = out;
  }

  scan-append :
      (a b : Str) (s : Scan) → scan from_str (a ++ b) s ≡ scan from_str b (scan from_str a s)
  unfolding scan
  scan-append [] b s = refl
  scan-append (c ∷ a) b s = scan-append a b (scan_step from_str c s)

  literal-step :
      (n c : ℕ) (text : Str) (out : List Value)
      → is_literal c ≡ true
      → scan_step from_str c (inside n text out) ≡ inside n (text ++ (c ∷ [])) out
  unfolding scan_step
  literal-step n c text out h = ground arith

  plain-step :
      (n c : ℕ) (text : Str) (out : List Value)
      → is_plain c ≡ true
      → scan_step from_str c (outside n text out) ≡ outside n (text ++ (c ∷ [])) out
  unfolding scan_step
  plain-step n c text out h = ground arith

  scan-quoted :
      (n : ℕ) (q : Quoted) (text : Str) (out : List Value)
      → scan from_str (quoted_text q) (inside n text out) ≡ outside n (text ++ quoted_text q) out
  unfolding scan
  scan-quoted n close_quote text out = refl
  scan-quoted n (literal c h q) text out =
      ap (scan from_str (quoted_text q)) (literal-step n c text out h)
      ∙ scan-quoted n q (text ++ (c ∷ [])) out
      ∙ ap (λ t. outside n t out) (append_assoc text (c ∷ []) (quoted_text q))
  scan-quoted n (escaped c q) text out =
      scan-quoted n q ((text ++ (b'\\' ∷ [])) ++ (c ∷ [])) out
      ∙ ap (λ t. outside n t out) (simp append_assoc)

  scan-Balanced :
      (n : ℕ) (b : Balanced) (text : Str) (out : List Value)
      → scan from_str (text_of b) (outside (suc n) text out)
        ≡ outside (suc n) (text ++ text_of b) out
  unfolding scan
  scan-Balanced n finish text out = ap (λ t. outside (suc n) t out) (sym (append-nil text))
  scan-Balanced n (plain c h b) text out =
      ap (scan from_str (text_of b)) (plain-step (suc n) c text out h)
      ∙ scan-Balanced n b (text ++ (c ∷ [])) out
      ∙ ap (λ t. outside (suc n) t out) (append_assoc text (c ∷ []) (text_of b))
  scan-Balanced n (quoted q b) text out =
      scan-append (quoted_text q) (text_of b) (inside (suc n) (text ++ (b'"' ∷ [])) out)
      ∙ ap (scan from_str (text_of b)) (scan-quoted (suc n) q (text ++ (b'"' ∷ [])) out)
      ∙ scan-Balanced n b ((text ++ (b'"' ∷ [])) ++ quoted_text q) out
      ∙ ap (λ t. outside (suc n) t out) (simp append_assoc)
  scan-Balanced n (braces inner b) text out =
      scan-append (text_of inner) (b'}' ∷ text_of b)
        (outside (suc (suc n)) (text ++ (b'{' ∷ [])) out)
      ∙ ap (scan from_str (b'}' ∷ text_of b))
          (scan-Balanced (suc n) inner (text ++ (b'{' ∷ [])) out)
      ∙ scan-Balanced n b (((text ++ (b'{' ∷ [])) ++ text_of inner) ++ (b'}' ∷ [])) out
      ∙ ap (λ t. outside (suc n) t out) (simp append_assoc)

  abbrev closed : List Value → Scan
  closed out = record { depth = pos 0; start = none; in_string = false; escape = false; out = out }

  -- An object that is complete adds what its text parses to.
  scan-object :
      (body : Balanced) (out : List Value)
      → scan from_str (object_text body) (closed out)
        ≡ closed (out ++ parsed from_str (some (object_text body)))
  unfolding scan
  scan-object body out =
      scan-append (text_of body) (b'}' ∷ []) (outside 1 (b'{' ∷ []) out)
      ∙ ap (scan from_str (b'}' ∷ [])) (scan-Balanced 0 body (b'{' ∷ []) out)

  plain-closed :
      (c : ℕ) (out : List Value)
      → is_plain c ≡ true
      → scan_step from_str c (closed out) ≡ closed out
  unfolding scan_step
  plain-closed c out h = ground arith

  scan-parts :
      (ps : List Part) (out : List Value)
      → scan from_str (parts_text ps) (closed out) ≡ closed (out ++ values_of (objects ps))
  unfolding scan
  scan-parts [] out = ap closed (sym (append-nil out))
  scan-parts (between c h ∷ ps) out =
      ap (scan from_str (parts_text ps)) (plain-closed c out h) ∙ scan-parts ps out
  scan-parts (complete body ∷ ps) out =
      scan-append (object_text body) (parts_text ps) (closed out)
      ∙ ap (scan from_str (parts_text ps)) (scan-object body out)
      ∙ scan-parts ps (out ++ parsed from_str (some (object_text body)))
      ∙ ap closed
          (append_assoc out (parsed from_str (some (object_text body))) (values_of (objects ps)))

  -- Records are only added.
  abbrev added : ℕ → Scan → List Value
  added c s =
      if not s.in_string && ((c == b'}') && is_zero (pred s.depth))
      then parsed from_str (extend c s.start)
      else []

  step-added : (c : ℕ) (s : Scan) → (scan_step from_str c s).out ≡ s.out ++ added c s
  unfolding scan_step
  step-added c s = ground (arith, append-nil s.out)

  Grows : Scan → Scan → Type 0
  Grows s t = (more : List Value) × (t.out ≡ s.out ++ more)

  scan-Grows : (text : Str) (s : Scan) → Grows s (scan from_str text s)
  unfolding scan Grows
  scan-Grows [] s = ([], sym (append-nil s.out))
  scan-Grows (c ∷ text) s =
      let (more, e) = scan-Grows text (scan_step from_str c s) in
      (added c s ++ more, e ∙ rw (step-added c s) (append_assoc s.out (added c s) more))

  append-eq_self : (a m₁ m₂ : List Value) → (a ++ m₁) ++ m₂ ≡ a → a ++ m₁ ≡ a
  append-eq_self a [] m₂ e = append-nil a
  append-eq_self a (v ∷ m₁) m₂ e =
      absurd
        (omega (arith, ap length e, length-append (a ++ (v ∷ m₁)) m₂, length-append a (v ∷ m₁)))

  -- An object that was cut off before its last brace adds nothing.
  scan-cut :
      (p q : Str) (body : Balanced) (out : List Value)
      → p ++ q ≡ b'{' ∷ text_of body
      → (scan from_str p (closed out)).out ≡ out
  unfolding scan Grows
  scan-cut p q body out h =
      let (m₁, e₁) = scan-Grows p (closed out) in
      let (m₂, e₂) = scan-Grows q (scan from_str p (closed out)) in
      let whole : (scan from_str q (scan from_str p (closed out))).out ≡ out =
        ap (λ s. s.out)
          (sym (scan-append p q (closed out))
            ∙ ap (λ t. scan from_str t (closed out)) h
            ∙ scan-Balanced 0 body (b'{' ∷ []) out) in
      e₁ ∙ append-eq_self out m₁ m₂ (ap (λ a. a ++ m₂) (sym e₁) ∙ sym e₂ ∙ whole)

  -- Of an array that was cut off, at any point behind a complete object and before the last brace of
  -- the next, exactly the complete objects are taken, in their order, without those that do not
  -- parse; braces and quotes inside strings do not count.
  pub best_effort_array_complete :
      (from_utf8 : List ℕ → Option Str) (bytes : List ℕ) (ps : List Part) (cut rest : Str)
      (next : Balanced)
      → from_utf8 bytes ≡ some (parts_text ps ++ cut)
      → cut ++ rest ≡ b'{' ∷ text_of next
      → best_effort_array from_str from_utf8 bytes ≡ some_records (values_of (objects ps))
  unfolding best_effort_array
  best_effort_array_complete from_utf8 bytes ps cut rest next read h =
      let scanned =
        ap (λ s. s.out) (scan-append (parts_text ps) cut scan_start)
        ∙ ap (λ s. (scan from_str cut s).out) (scan-parts ps [])
        ∙ scan-cut cut rest next (values_of (objects ps)) h in
      rw (read, scanned)
