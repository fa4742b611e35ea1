-- ===== src/Base/Text/Trim.antt =====
-- `str::trim` takes whitespace off both ends, and a second time takes nothing.
use mathlib.Core.Path.{◌≡◌, refl}
use mathlib.Core.Logic.{inl, inr}
use mathlib.Core.Bool.{false, ◌&&◌}
use mathlib.Core.List.{[], ◌∷◌}
use rustdesk_server_nemo.Base.Tests.{Bool-cases}
use rustdesk_server_nemo.Base.Text.{Str, is_whitespace, is_empty, trim, trim_start, trim_end}

-- The text does not begin with whitespace.
abbrev pub StartsBare : Str → Type 0
StartsBare [] = Unit
StartsBare (c ∷ s) = is_whitespace c ≡ false

trim_start-StartsBare : (s : Str) → StartsBare (trim_start s)
unfolding trim_start
trim_start-StartsBare [] = tt
trim_start-StartsBare (c ∷ s) = elim (Bool-cases (is_whitespace c)) [
  | inl e ↦ rw e (trim_start-StartsBare s)
  | inr e ↦ rw e e
]

trim_start_of_StartsBare : (s : Str) → StartsBare s → trim_start s ≡ s
unfolding trim_start
trim_start_of_StartsBare [] h = refl
trim_start_of_StartsBare (c ∷ s) h = rw h

trim_end-StartsBare : (s : Str) → StartsBare s → StartsBare (trim_end s)
unfolding trim_end
trim_end-StartsBare [] h = tt
trim_end-StartsBare (c ∷ s) h = rw h h

trim_end-trim_end : (s : Str) → trim_end (trim_end s) ≡ trim_end s
unfolding trim_end
trim_end-trim_end [] = refl
trim_end-trim_end (c ∷ s) = elim (Bool-cases (is_whitespace c && is_empty (trim_end s))) [
  | inl e ↦ rw e
  | inr e ↦ rw (e, trim_end-trim_end s, e)
]

pub trim-trim : (s : Str) → trim (trim s) ≡ trim s
unfolding trim
trim-trim s =
    let bare = trim_start-StartsBare s in
    rw
      (trim_start_of_StartsBare (trim_end (trim_start s)) (trim_end-StartsBare (trim_start s) bare))
      (trim_end-trim_end (trim_start s))
