-- ===== src/Transport/Diagnostics/Lines.antt =====
-- transport.go, analyzeLinePayloadV4: texts of whole lines, and what reading them adds to the counts.
use statokgo.Prelude.{
  ℕ, ◌+◌, Bytes, [], ◌∷◌, ◌++◌, append_assoc, Option, ◌≡◌, refl, ap, ◌∙◌, arith, Lacks,
}
use statokgo.Go.Strings.{split_byte}
use statokgo.Go.Strings.Words.{split_byte_line}
use statokgo.LineProtocol.{DictionaryState}
use statokgo.Transport.Diagnostics.{Diagnostics, analyze_line, analyze_lines}
use statokgo.Transport.Diagnostics.Adds.{Adds, Adds-none, Adds-trans}

-- `text` stands for whole lines: read before anything else, it adds to the counts what it says.
pub record Reads (state : Option DictionaryState) (text : Bytes)
    (defs def_bytes lines line_bytes : ℕ) (d : Diagnostics) : Type 0 where
  pub behind : Diagnostics
  pub reads :
      (rest : Bytes)
      → analyze_lines state (split_byte b'\n' (text ++ rest)) d
        ≡ analyze_lines state (split_byte b'\n' rest) behind
  pub adds : Adds defs def_bytes lines line_bytes d behind

module _ (state : Option DictionaryState) where
  pub Reads-nil : (d : Diagnostics) → Reads state [] 0 0 0 0 d
  Reads-nil d = record { behind = d; reads = λ rest. refl; adds = Adds-none d }

  pub Reads-append :
      (s t : Bytes) {a b c e a' b' c' e' : ℕ} (d : Diagnostics) (h : Reads state s a b c e d)
      → Reads state t a' b' c' e' h.behind
      → Reads state (s ++ t) (a + a') (b + b') (c + c') (e + e') d
  Reads-append s t d h k = record {
    behind = k.behind;
    reads = λ rest.
        ap (λ x. analyze_lines state (split_byte b'\n' x) d) (append_assoc s t rest)
        ∙ h.reads (t ++ rest)
        ∙ k.reads rest;
    adds = Adds-trans h.adds k.adds;
  }

  pub Reads-line :
      (line : Bytes) {a b c e : ℕ} (d : Diagnostics)
      → Lacks b'\n' line
      → Adds a b c e d (analyze_line state line d)
      → Reads state (line ++ b'\n' ∷ []) a b c e d
  unfolding analyze_lines
  Reads-line line d clean h = record {
    behind = analyze_line state line d;
    reads = λ rest.
        ap (λ x. analyze_lines state (split_byte b'\n' x) d) (append_assoc line (b'\n' ∷ []) rest)
        ∙ ap (λ ls. analyze_lines state ls d) (split_byte_line b'\n' line rest clean);
    adds = h;
  }

  -- The same text, and the same counts.
  pub Reads-same :
      (s t : Bytes) {a b c e a' b' c' e' : ℕ} (d : Diagnostics)
      → t ≡ s
      → (a ≡ a') × (b ≡ b') × (c ≡ c') × (e ≡ e')
      → Reads state s a b c e d
      → Reads state t a' b' c' e' d
  Reads-same s t d same (ea, eb, ec, ee) h = record {
    behind = h.behind;
    reads =
        λ rest. ap (λ x. analyze_lines state (split_byte b'\n' (x ++ rest)) d) same ∙ h.reads rest;
    adds = record {
      more_definitions = omega (arith, h.adds.more_definitions, ea);
      more_definition_bytes = omega (arith, h.adds.more_definition_bytes, eb);
      more_lines = omega (arith, h.adds.more_lines, ec);
      more_line_bytes = omega (arith, h.adds.more_line_bytes, ee);
      same_dictionary = h.adds.same_dictionary;
    };
  }
