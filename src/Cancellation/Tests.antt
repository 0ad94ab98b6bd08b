-- ===== src/Cancellation/Tests.antt =====
-- A signal that is aborted with a value of the caller.
use dogpile.Base.{ℕ, some, none, true, false}
use dogpile.Data.Error.{other}
use dogpile.Cancellation.{AbortSignal, throw_if_aborted}
use dogpile.Cancellation.Signals.{Checked, throw_if_aborted-Checked}

abbrev signal : AbortSignal ℕ
signal = record { aborted = true; reason = other none false }

throw_if_aborted-Checked_example : Checked "p" (some signal) (throw_if_aborted (some signal) "p")
throw_if_aborted-Checked_example = throw_if_aborted-Checked "p" (some signal)
