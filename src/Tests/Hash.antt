-- ===== src/Tests/Hash.antt =====
-- "#A" and "#a"
use efnet_services.Common.{ℕ, List, [], ◌∷◌, ◌==◌, if◌then◌else◌}

abbrev lower : ℕ → ℕ
lower c = if c == 65 then 97 else c

abbrev upper_a : List ℕ
upper_a = 35 ∷ 65 ∷ []

abbrev lower_a : List ℕ
lower_a = 35 ∷ 97 ∷ []
