-- ===== src/Web/Generation/Rules.antt =====
-- Postconditions of the two tests that the loops of a generation make.
use jobilee.Prelude.{◌≡◌, Bool-cases, inl, inr, String, true, Option, none, some}
use jobilee.Effect.{Action, ◌>>=◌}
use jobilee.Effect.Meets.{Meets}
use jobilee.Thrown.{Thrown}
use jobilee.Shared.Ai.{TaskStatus, is_terminal_status}
use jobilee.Web.Generation.{
  Settled, Hook, is_cancelled, settled_by, unless_terminal, unless_cancelled,
}

module _ {W : Type 0} (hook : Hook W) (next : Action W (Option Settled)) (w : W)
    (good : Option Settled → W → Type 0) (bad : Thrown → W → Type 0) where
  pub cancelled-Meets :
      (hook.cancelled w ≡ true → good none w)
      → Meets (next w) good bad
      → Meets ((is_cancelled hook >>= unless_cancelled hook next) w) good bad
  cancelled-Meets h k = elim (Bool-cases (hook.cancelled w)) [
    | inl c ↦ rw (◌>>=◌, c) (h c)
    | inr c ↦ rw (◌>>=◌, c) k
  ]

  pub terminal-Meets :
      (status : TaskStatus) (result error : Option String)
      → (is_terminal_status status ≡ true → good (some (settled_by status result error)) w)
      → Meets (next w) good bad
      → Meets (unless_terminal hook status result error next w) good bad
  terminal-Meets status result error h k = elim (Bool-cases (is_terminal_status status)) [
    | inl c ↦ rw c (h c)
    | inr c ↦ rw c k
  ]
