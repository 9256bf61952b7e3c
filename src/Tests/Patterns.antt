-- ===== src/Tests/Patterns.antt =====
-- Patterns of lib/fnmatch.c, and the theorem about them.
use tortoise.Base.{◌≡◌, refl, ◌↔◌, ℕ, true, false, List, [], ◌∷◌}
use tortoise.Libc.Fnmatch.{Flags, fnmatch, hides}
use tortoise.Libc.Fnmatch.Patterns.{Matches}
use tortoise.Libc.Fnmatch.Complete.{fnmatch-Matches}

abbrev paths : Flags
paths = record { no_escape = false; pathname = true; period = true }

-- "*.[ch]"
abbrev c_sources : List ℕ
c_sources = 42 ∷ 46 ∷ 91 ∷ 99 ∷ 104 ∷ 93 ∷ []

-- "a.c"
abbrev a_c : List ℕ
a_c = 97 ∷ 46 ∷ 99 ∷ []

fnmatch-Matches_example :
    (fnmatch c_sources a_c paths ≡ true)
    ↔ ((hides paths true c_sources a_c ≡ false) × Matches paths c_sources a_c)
fnmatch-Matches_example = fnmatch-Matches c_sources a_c paths

a_c_matches : fnmatch c_sources a_c paths ≡ true
unfolding fnmatch
a_c_matches = refl

-- "/a.c" is in another directory, and ".c" starts with a period.
slash_apart : fnmatch c_sources (47 ∷ a_c) paths ≡ false
unfolding fnmatch
slash_apart = refl

period_hidden : fnmatch c_sources (46 ∷ 99 ∷ []) paths ≡ false
unfolding fnmatch
period_hidden = refl
