-- ===== src/Util/Tokenizer/Errors.antt =====
-- When the command line is refused, and what its words look like.
use maos_core.Common.{
  ◌++◌, ◌==◌, Bool, true, false, not, List, [], ◌∷◌, ℕ, none, some, if◌then◌else◌, ◌≡◌, refl, ◌≢◌,
  arith, Bool-cases, ◌↔◌, inl, inr, subst,
}
use maos_core.Common.Decimal.{Text}
use maos_core.Util.Tokenizer.{
  Tokenizer, append_rune, flush, step, run, start, finish, tokenize_command,
}
use maos_core.Util.Tokenizer.Quoting.{NonEmpty}

-- Whether a quote is left open: each quote that no backslash precedes opens or closes one.
pub leaves_open : Bool → Text → Bool
leaves_open q [] = q
leaves_open q (c ∷ []) = if c == b'"' then not q else q
leaves_open q (c ∷ (d ∷ cs)) =
    let escaped = leaves_open q cs in
    let rest = leaves_open (if c == b'"' then not q else q) (d ∷ cs) in
    if c == b'\\' then escaped else rest

-- One rune moves the two flags by themselves.
step_flags :
    (s : Tokenizer) (r : ℕ)
    → s.escape_next ≡ false
    → ((step s r).escape_next ≡ (r == b'\\'))
      × ((step s r).in_quotes ≡ (if r == b'"' then not s.in_quotes else s.in_quotes))
unfolding step append_rune
step_flags s r h = (ground arith, ground arith)

step_escaped :
    (s : Tokenizer) (r : ℕ)
    → s.escape_next ≡ true
    → ((step s r).escape_next ≡ false) × ((step s r).in_quotes ≡ s.in_quotes)
unfolding step
step_escaped s r h = ground arith

run-leaves_open :
    (s : Tokenizer) (t : Text)
    → s.escape_next ≡ false
    → (run s t).in_quotes ≡ leaves_open s.in_quotes t
unfolding run leaves_open
run-leaves_open s [] h = refl
run-leaves_open s (c ∷ []) h = (step_flags s c h).1
run-leaves_open s (c ∷ (d ∷ cs)) h = elim (Bool-cases (c == b'\\')) [
  | inl e ↦
      ground
        (arith, step_flags s c h, step_escaped (step s c) d, run-leaves_open (step (step s c) d) cs)
  | inr e ↦ ground (arith, step_flags s c h, run-leaves_open (step s c) (d ∷ cs))
]

-- A command line is refused exactly when it leaves a quote open.
pub tokenize_command_refuses :
    (t : Text) → (tokenize_command t ≡ none) ↔ (leaves_open false t ≡ true)
unfolding tokenize_command start finish
tokenize_command_refuses t = ground (arith, run-leaves_open start t refl)

NonEmpty-append : (ws : List Text) (w : Text) → NonEmpty ws → w ≢ [] → NonEmpty (ws ++ w ∷ [])
NonEmpty-append [] w h k = (k, tt)
NonEmpty-append (v ∷ vs) w h k = (h.0, NonEmpty-append vs w h.1 k)

flush-NonEmpty :
    (s : Tokenizer) (t : Text) → s.current ≡ t → NonEmpty s.command → NonEmpty (flush s).command
unfolding flush
flush-NonEmpty s [] e h = rw (e, flush) h
flush-NonEmpty s (c ∷ cs) e h = rw (e, flush) (NonEmpty-append s.command (c ∷ cs) h (λ k. cc))

step-NonEmpty : (s : Tokenizer) (r : ℕ) → NonEmpty s.command → NonEmpty (step s r).command
unfolding step append_rune
step-NonEmpty s r h = ground (arith, flush-NonEmpty s s.current refl h)

run-NonEmpty : (s : Tokenizer) (t : Text) → NonEmpty s.command → NonEmpty (run s t).command
unfolding run
run-NonEmpty s [] h = h
run-NonEmpty s (c ∷ cs) h = run-NonEmpty (step s c) cs (step-NonEmpty s c h)

finish-some : (s : Tokenizer) (ws : List Text) → finish s ≡ some ws → (flush s).command ≡ ws
unfolding finish
finish-some s ws h = ground arith

-- No word of an accepted command line is empty, so an argument written "" is lost.
pub tokenize_command-NonEmpty :
    (t : Text) (ws : List Text) → tokenize_command t ≡ some ws → NonEmpty ws
unfolding tokenize_command start
tokenize_command-NonEmpty t ws h =
    let s = run start t in
    subst NonEmpty (finish-some s ws h) (flush-NonEmpty s s.current refl (run-NonEmpty start t tt))
