-- ===== src/Shell/Lines/Session.antt =====
-- What `shellMode` of myShell/hw1.c runs of any input.
use mathlib.Core.Path.{subst}
use cos.Base.{
  ℕ, zero, suc, ◌+◌, ◌-◌, ◌*◌, ◌/◌, ◌≤◌, ◌<◌, ◌≡◌, refl, sym, ap, ◌∙◌, inl, inr, true, false,
  Bool-cases, ==_iff, List, [], ◌∷◌, ◌++◌, append_assoc, append-nil, ◌==◌, arith, length,
  length-append, length-drop, drop, map, All, All-append, Str,
}
use cos.Base.{dec_lt}
use cos.Shell.Commands.{Shell, Os, Outcome, running, bind}
use cos.Base.{up_to_zero}
use cos.Shell.Lines.{line_size, execute_line, shell_mode}
use cos.Shell.Lines.Split.{bind-eq}
use cos.Shell.Lines.Input.{run_lines, shell_mode-next, shell_mode-newline}

-- No newline, and not the byte that is taken for the end of the input.
abbrev pub Plain : Str → Type 0
Plain = All (λ c. ((c == 255) ≡ false) × ((c == 10) ≡ false))

-- The lines of an input, without their newlines, up to its end or to the first byte 255; what stands
-- behind the last newline is no line.
pub data Session : Str → List Str → Type 0 where
  ends : (rest : Str) → Plain rest → Session rest []
  stops : (rest ignored : Str) → Plain rest → Session (rest ++ 255 ∷ ignored) []
  enters :
      (line input : Str) (lines : List Str)
      → Plain line
      → Session input lines
      → Session (line ++ 10 ∷ input) (line ∷ lines)

-- What the buffer holds of a line: the characters behind the last multiple of 251.
abbrev pub held : Str → Str
held line = drop (line_size * (length line / line_size)) line

drop-snoc : (n : ℕ) (t : Str) (c : ℕ) → n ≤ length t → drop n (t ++ c ∷ []) ≡ drop n t ++ c ∷ []
drop-snoc zero t c le = refl
drop-snoc (suc n) [] c le = absurd (omega arith)
drop-snoc (suc n) (x ∷ t) c le = drop-snoc n t c (omega (arith, le))

drop-all : (n : ℕ) (t : Str) → n ≡ length t → drop n t ≡ []
drop-all zero [] e = refl
drop-all zero (x ∷ t) e = absurd (omega (arith, e))
drop-all (suc n) [] e = refl
drop-all (suc n) (x ∷ t) e = drop-all n t (omega (arith, e))

length-held : (t : Str) → length (held t) ≡ length t - line_size * (length t / line_size)
length-held t = length-drop (line_size * (length t / line_size)) t

held-short : (t : Str) → length (held t) < line_size
held-short t = omega (arith, length-held t)

held-full : (t : Str) (c : ℕ) → length (held t) + 1 ≡ line_size → held (t ++ c ∷ []) ≡ []
held-full t c e =
    drop-all (line_size * (length (t ++ c ∷ []) / line_size)) (t ++ c ∷ [])
      (omega (arith, e, length-held t, length-append t (c ∷ [])))

held-room :
    (t : Str) (c : ℕ) → length (held t) + 1 < line_size → held (t ++ c ∷ []) ≡ held t ++ c ∷ []
held-room t c lt =
    let same : length (t ++ c ∷ []) / line_size ≡ length t / line_size =
      omega (arith, lt, length-held t, length-append t (c ∷ [])) in
    ap (λ q. drop (line_size * q) (t ++ c ∷ [])) same
    ∙ drop-snoc (line_size * (length t / line_size)) t c (omega arith)

-- A full buffer is emptied before the next character is read.
shell_mode-full :
    (os : Os) (before cs : Str) (s : Shell)
    → shell_mode os line_size before cs s ≡ shell_mode os 0 [] cs s
unfolding shell_mode
shell_mode-full os before [] s = refl
shell_mode-full os before (c ∷ cs) s = refl

-- The state of the loop behind the characters `t` of a line.
abbrev mode_at : Os → (t cs : Str) → Shell → Outcome
mode_at os t cs s = shell_mode os (length (held t)) (held t) cs s

mode_at-next :
    (os : Os) (t : Str) (c : ℕ) (cs : Str) (s : Shell)
    → (c == 255) ≡ false
    → (c == 10) ≡ false
    → mode_at os t (c ∷ cs) s ≡ mode_at os (t ++ c ∷ []) cs s
mode_at-next os t c cs s h h' =
    shell_mode-next os (length (held t)) (held t) c cs s (held-short t) h h'
    ∙ elim (dec_lt (length (held t) + 1) line_size) [
      | yes room ↦
          let same = held-room t c room in
          ap (λ n. shell_mode os n (held t ++ c ∷ []) cs s)
            (omega (arith, length-append (held t) (c ∷ [])))
          ∙ ap (λ x. shell_mode os (length x) x cs s) (sym same)
      | no no_room ↦
          let full : length (held t) + 1 ≡ line_size = omega (arith, held-short t, no_room) in
          ap (λ n. shell_mode os n (held t ++ c ∷ []) cs s) full
          ∙ (shell_mode-full os (held t ++ c ∷ []) cs s
              ∙ ap (λ x. shell_mode os (length x) x cs s) (sym (held-full t c full)))
    ]

mode_at-newline :
    (os : Os) (t cs : Str) (s : Shell)
    → mode_at os t (10 ∷ cs) s
      ≡ bind (execute_line os (up_to_zero (held t)) s) (λ u. mode_at os [] cs u)
mode_at-newline os t cs s = shell_mode-newline os (length (held t)) (held t) cs s (held-short t)

mode_at-end :
    (os : Os) (t : Str) (c : ℕ) (cs : Str) (s : Shell)
    → (c == 255) ≡ true
    → mode_at os t (c ∷ cs) s ≡ running s
unfolding shell_mode
mode_at-end os t c cs s h = rw (shell_mode, h) refl

mode_at-Session :
    (os : Os) (cs t : Str)
    → Plain t
    → (lines : List Str) × Session (t ++ cs) lines
      × ((s : Shell) → mode_at os t cs s ≡ run_lines os (map held lines) s)
unfolding shell_mode
mode_at-Session os [] t plain =
    ([], subst (λ x. Session x []) (sym (append-nil t)) (ends t plain), λ s. refl)
mode_at-Session os (c ∷ cs) t plain = elim (Bool-cases (c == 255)) [
  | inl h ↦
      let same : c ≡ 255 = (==_iff c 255).0 h in
      (
        [],
        subst (λ d. Session (t ++ d ∷ cs) []) (sym same) (stops t cs plain),
        λ s. mode_at-end os t c cs s h,
      )
  | inr h ↦ elim (Bool-cases (c == 10)) [
    | inl h' ↦
        let same : c ≡ 10 = (==_iff c 10).0 h' in
        let (lines, session, runs) = mode_at-Session os cs [] tt in
        (
          t ∷ lines,
          subst (λ d. Session (t ++ d ∷ cs) (t ∷ lines)) (sym same)
              (enters t cs lines plain session),
          λ s.
              ap (λ d. mode_at os t (d ∷ cs) s) same
              ∙ (mode_at-newline os t cs s
                  ∙ bind-eq (execute_line os (up_to_zero (held t)) s) runs),
        )
    | inr h' ↦
        let (lines, session, runs) =
          mode_at-Session os cs (t ++ c ∷ []) (All-append _ t (c ∷ []) plain ((h, h'), tt)) in
        (
          lines,
          subst (λ x. Session x lines) (append_assoc t (c ∷ []) cs) session,
          λ s. mode_at-next os t c cs s h h' ∙ runs s,
        )
  ]
]

-- Of every input `shellMode` runs the lines up to the end of the input or the first byte 255, in
-- order, and of each line what the buffer holds, up to its first zero byte: the whole line up to 250
-- characters, else what stands behind the last multiple of 251 characters.
pub shell_mode-Session :
    (os : Os) (input : Str) (s : Shell)
    → (lines : List Str) × Session input lines
      × (shell_mode os 0 [] input s ≡ run_lines os (map held lines) s)
shell_mode-Session os input s =
    let (lines, session, runs) = mode_at-Session os input [] tt in (lines, session, runs s)
